-- ===== src/Modules.antt =====
-- The modules that the server loads: the threads of ga/module, which work on the buffers of the core.
pub mod Image
pub mod EncoderAudio
pub mod EncoderVideo
pub mod FilterRgb2yuv
pub mod VsourceDesktop
