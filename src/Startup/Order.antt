-- ===== src/Startup/Order.antt =====
-- The order of what `run` of cmd/ftp-server/main.go does: what is open when, and what is left open.
use cloud_file_server.Base.{◌||◌, ◌||◌}
use cloud_file_server.Text.{Text}
use cloud_file_server.Config.{Config}
