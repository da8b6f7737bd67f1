-- ===== src/Tests.antt =====
-- The theorems at concrete inputs: a sample database, the wallet operations on it, accounts and histories.
pub mod Sample
pub mod Services
pub mod Accounts
pub mod Keys
pub mod Events
pub mod Cache
pub mod Login
pub mod Schema
pub mod Loops
pub mod Requests
