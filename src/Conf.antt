-- ===== src/Conf.antt =====
-- The configuration: the maps it stands on, the variables of ga/core/ga-conf.cpp, and the server's
-- and client's settings of ga/core/rtspconf.cpp.
pub mod Maps
pub mod Checked
pub mod Store
pub mod Numbers
pub mod Settings
pub mod Parser
pub mod Url
mod Tests
pub mod Keys
