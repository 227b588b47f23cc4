-- ===== src/Config.antt =====
-- configuration.h, configuration.cpp and the functions `instantiate`: what the program makes of the
-- configuration file.
pub mod Limits
pub mod Devices
pub mod Filters
pub mod Mappings
pub mod Registry
pub mod Load
pub mod Connections
pub mod Names
pub mod Identities
pub mod Sections
pub mod Delivery
