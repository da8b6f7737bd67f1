-- ===== src/Repositories.antt =====
-- The repositories (app/repositories): each method adds a row or reads one, and flushes. Ids of
-- new rows (`uuid.uuid4`) are arguments.
pub mod Wallets
pub mod Transactions
pub mod Entries
pub mod Outbox
pub mod Users
pub mod Processed
pub mod Stats
