-- ===== src/Api.antt =====
-- The HTTP server, api/.
pub mod Errors
pub mod Request
pub mod Framing
pub mod Upload
pub mod Listing
pub mod Download
