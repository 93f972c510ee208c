-- ===== src/Examples.antt =====
-- The theorems at concrete crawls, snapshots and searches.
mod Data
mod Lifecycles
mod Rows
mod Searches
mod Discoveries
mod Leases
mod Passes
mod Hosts
mod Turns
mod Locking
mod Requests
mod Recoveries
mod Serving
