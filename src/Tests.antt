-- ===== src/Tests.antt =====
-- Runs at fixed inputs, and each result at an input that meets its hypotheses.
mod Log
mod Names
mod Stores
mod Commands
mod Outcomes
mod Restarts
mod Requests
mod Codecs
mod Disks
mod Scans
mod Responses
mod Uploads
mod Listings
