-- ===== src/Tests.antt =====
-- Tests and instances of the theorems, on a small world that can be run.
pub mod Packing
pub mod Sample
mod Addresses
mod Stores
mod Memberships
mod Others
mod Services
mod Tickers
mod Waiting
mod Hosts
mod Printing
mod Arguments
mod Starting
mod Jobbing
mod Levels
mod Files
mod Replicating
mod Launching
mod Distributing
mod Forwarding
