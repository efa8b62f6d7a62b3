-- ===== src/Fsdriver.antt =====
-- internal/fsdriver: the storage drivers behind FTP and SFTP.
pub mod FileInfo
pub mod Files
pub mod DirFile
pub mod AuditFs
pub mod SftpHandlers
pub mod Plugins
pub mod Uploads
pub mod ObjectFs
