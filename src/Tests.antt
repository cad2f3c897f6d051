-- ===== src/Tests.antt =====
-- The theorems at concrete inputs.
mod Fixtures
mod Arns
mod Objects
mod Fetching
mod Signing
mod Serving
mod Checking
mod Running
mod Process
