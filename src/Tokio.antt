-- ===== src/Tokio.antt =====
-- src/examples/tokio_mqtt_server/src/: the server that runs the broker on TCP connections.
pub mod Io
pub mod State
pub mod Handler
pub mod Server
