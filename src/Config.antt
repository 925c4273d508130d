-- ===== src/Config.antt =====
-- src/config.c: the two configuration files, as the INI parser hands them over pair by pair.
pub mod Settings
pub mod Devices
