-- ===== src/Io/Modbus.antt =====
-- src/io_protocols/modbus_client.py: the checksum, the frames, the register bank and one
-- transaction of the client. A socket is the sequence of what its calls of `recv` meet.
pub mod Crc
pub mod Frame
pub mod Bank
pub mod Client
