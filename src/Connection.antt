-- ===== src/Connection.antt =====
-- Connections (connection.c).
pub mod Slots
pub mod Transaction
