-- ===== src/Pipeline.antt =====
-- The pipelines of ga/core/pipeline.cpp: the two pools of buffers that a frame producer and a frame
-- consumer exchange, the names of pipelines, their private data, and the clients that wait.
pub mod Pool
pub mod Registry
pub mod Private
pub mod Clients
