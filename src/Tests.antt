-- ===== src/Tests.antt =====
-- The theorems at concrete inputs: a cache of one block and a file named "a", and small rings, lists
-- and requests.
mod Fixtures
mod Mappings
mod Parts
mod Drivers
mod Locks
mod Lifecycle
mod Runs
