-- ===== src/Tests.antt =====
-- Runs and checks at concrete inputs.
mod KeepaliveRuns
mod LdnRuns
mod LdnEdits
mod WalkRuns
mod Anchors
mod BootstrapRuns
mod HotpathRuns
mod SwitchRuns
mod IncomingRuns
mod LwipRuns
