-- ===== src/Io.antt =====
-- src/io_protocols: the MODBUS, MQTT, serial and OPC UA clients.
pub mod Modbus
pub mod Mqtt
pub mod Serial
pub mod Opcua
mod Tests
