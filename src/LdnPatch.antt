-- ===== src/LdnPatch.antt =====
-- scripts/patch-ldn-zt.py: ldn_mitm's sources are rewritten so that its sockets go through libzt.
pub mod Edit
pub mod MainCpp
pub mod LanProtocol
pub mod LanDiscovery
pub mod Communication
pub mod Run
