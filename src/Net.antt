-- ===== src/Net.antt =====
-- The standard library's address parsers, which both servers and the admin API use, and the
-- address that they fall back to.
use cloud_file_server.Base.{[], Option, none, some, if◌then◌else◌}
use cloud_file_server.Text.{Text, ascii, text_beq}

-- `net.SplitHostPort`, its host, and `net.ParseIP`, as the text of the address.
pub record Net : Type 0 where
  pub split_host : Text → Option Text
  pub parse_ip : Text → Option Text

unfoldable pub loopback : Text
unfolding ascii
loopback = ascii "127.0.0.1"

abbrev or_loopback : Option Text → Text
or_loopback none = loopback
or_loopback (some ip) = ip

-- `clientIPFromAddr` of internal/ftpserver/server.go and of internal/sftpserver/server.go: the
-- second tests for an empty address first, which names no host anyway.
unfoldable pub client_ip_from_addr : Net → Text → Text
client_ip_from_addr net addr = elim (net.split_host addr) [
  | none ↦ loopback
  | some host ↦ if text_beq host [] then loopback else or_loopback (net.parse_ip host)
]
