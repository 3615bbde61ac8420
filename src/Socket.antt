-- ===== src/Socket.antt =====
-- tools/socket: addresses, the calls of the socket interface, and connections that share a socket.
pub mod Endian
pub mod Address
pub mod Calls
pub mod Connection
pub mod Server
mod Tests
