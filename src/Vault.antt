-- ===== src/Vault.antt =====
-- server/vault: values encrypted under one password, in a database of their own.
pub mod Model
pub mod Provider
pub mod Pass
pub mod Manager
