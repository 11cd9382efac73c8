-- ===== src/Client.antt =====
-- The HTTP client, client/.
pub mod Errors
pub mod Meta
pub mod Sending
pub mod Opts
pub mod Get
pub mod Receiving
pub mod Transfer
pub mod Requests
pub mod Listing
