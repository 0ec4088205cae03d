-- ===== src/Socket.antt =====
-- The buffered TCP socket, src/asio/tcp/socket.cpp.
pub mod Stream
pub mod Read
pub mod Iterator
pub mod Write
