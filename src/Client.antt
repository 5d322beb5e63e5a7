-- ===== src/Client.antt =====
-- The client's side of a connection.
pub mod Sequence
pub mod Requests
pub mod PropertyTable
pub mod Motors
pub mod Methods
pub mod EventStream
