-- ===== src/Cli.antt =====
-- The command line, cli/.
pub mod Exit
pub mod Flags
pub mod Scan
pub mod Parse
