-- ===== src/Conn.antt =====
-- lib/conn: the buffers that hold protocol messages, and the messages that the proxy writes itself.
pub mod Buffer
pub mod Message
pub mod Pool
pub mod Sockets
