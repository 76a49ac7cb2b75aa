-- ===== src/Scheduler/Collect.antt =====
-- The four ways to collect from a device: `collectJSON`, `collectSSH`, `collectRESTCONF` and
-- `collectNETCONF`.
pub mod Calls
pub mod Json
pub mod Basic
pub mod Shell
pub mod Nxos
pub mod Iosxe
pub mod Ios
pub mod Ssh
