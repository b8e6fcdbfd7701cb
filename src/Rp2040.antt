-- ===== src/Rp2040.antt =====
-- src/examples/rp2040_mqtt_server/src/: the server on the RP2040 board.
pub mod State
pub mod Io
