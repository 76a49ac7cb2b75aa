-- ===== src/Provider.antt =====
-- internal/provider: what the collection providers return, and the interface under which the
-- scheduler calls them.
pub mod Json
pub mod Basic
pub mod Cli
pub mod Output
pub mod Restconf
pub mod Netconf
