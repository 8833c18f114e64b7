-- ===== src/Io/Opcua.antt =====
-- src/io_protocols/opcua_client.py.
pub mod Node
pub mod Client
pub mod Steps
mod Tests
