-- ===== src/Cli.antt =====
-- src/onceproof/cli.py: the command line.
pub mod Exit
pub mod Backup
pub mod Payloads
pub mod Commands
pub mod Manifest
pub mod Recoverable
pub mod Opened
pub mod Checked
pub mod Revoked
