-- ===== src/Clients.antt =====
-- server/clients: the clients that have connected, who may see them, and their tunnels.
pub mod Client
pub mod Access
pub mod Starting
pub mod Reestablish
pub mod Service
pub mod Store
pub mod Repository
