-- ===== src/Connection.antt =====
-- internal/modules/broker/connection and internal/modules/auth: clients, their manager and the
-- server's handling of a connection.
pub mod Auth
pub mod Clients
pub mod Server
pub mod Broker
pub mod Listener
