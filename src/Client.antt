-- ===== src/Client.antt =====
-- The client: the assembly of video frames, the packet queue and the sound of ga/client/rtspclient.cpp,
-- and ProcessEvent of ga/client/ga-client.cpp.
pub mod Assembly
pub mod Packets
pub mod Process
pub mod Sound
mod Tests
