-- ===== src/Io/Mqtt.antt =====
-- src/io_protocols/mqtt_listener.py: subscriptions, the remaining length, and the packets. Byte
-- strings are those of Python 3: they do not join with texts, and their elements are numbers.
pub mod Topics
pub mod Length
pub mod Subscription
pub mod Listener
