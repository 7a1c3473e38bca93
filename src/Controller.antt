-- ===== src/Controller.antt =====
-- The input controller of ga/core/controller.cpp: its message queue, the server that takes messages
-- off the network, and the client that sends them.
pub mod Queue
pub mod Server
pub mod Client
pub mod Sockets
mod Tests
