-- ===== src/Audio.antt =====
-- The audio source of ga/core/asource.cpp: the buffer of one client, and all the clients.
pub mod Buffer
pub mod Clients
