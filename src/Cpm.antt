-- ===== src/Cpm.antt =====
-- gateway-go/cpmdir.go: the directory of a CP/M disk image.
pub mod Geometry
pub mod Names
pub mod Directory
pub mod Bounds
pub mod Extents
pub mod Attributes
pub mod Order
