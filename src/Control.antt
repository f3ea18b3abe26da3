-- ===== src/Control.antt =====
-- agent/control: the control plane.
pub mod Denials
