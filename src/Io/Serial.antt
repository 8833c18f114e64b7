-- ===== src/Io/Serial.antt =====
-- src/io_protocols/serial_sensor.py.
pub mod Packets
pub mod Failure
pub mod Reader
mod Tests
