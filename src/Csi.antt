-- ===== src/Csi.antt =====
-- pkg/csi/cinder: the CSI driver for Cinder.
pub mod Api
pub mod Cloud
pub mod Controller
pub mod Node
pub mod Snapshots
mod Scenarios
