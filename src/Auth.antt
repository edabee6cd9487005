-- ===== src/Auth.antt =====
-- modules/auth and modules/users: accounts, passwords, tokens.
pub mod State
pub mod Passwords
pub mod Tokens
pub mod Service
pub mod Login
pub mod Lockout
pub mod Ledger
pub mod Access
pub mod Deletion
pub mod Registration
pub mod Conflict
pub mod Accounts
pub mod Accepted
pub mod Module
pub mod Google
pub mod Controller
pub mod Sample
mod Tests
