-- ===== src/Examples.antt =====
-- Runs of the models at concrete inputs, one for each result that has conditions.
mod Vaults
mod Addresses
mod Members
mod Pages
mod Logins
mod Connections
mod Requests
mod Grants
