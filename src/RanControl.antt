-- ===== src/RanControl.antt =====
-- svc-aerial-ran-control: the cells that the control plane requests from the cluster, and the
-- status of the network functions.
pub mod Gnb
pub mod Handler
pub mod Radio
mod Tests
