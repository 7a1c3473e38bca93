-- ===== src/Rtsp.antt =====
-- The RTSP server of ga/core/rtspserver.cpp.
pub mod Server
pub mod Codecs
pub mod Interleaved
pub mod Reader
pub mod Request
