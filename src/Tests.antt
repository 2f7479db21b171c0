-- ===== src/Tests.antt =====
-- Concrete runs of the development: a small world, and the theorems at work in it.
pub mod World
pub mod Nodes
pub mod Orders
pub mod Checks
pub mod Trades
pub mod Accounts
pub mod Books
pub mod Confirmations
pub mod Collectibles
pub mod Rooms
pub mod Jobs
pub mod Prints
pub mod Deliveries
pub mod Hosts
pub mod Queries
