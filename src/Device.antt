-- ===== src/Device.antt =====
-- gateway-go/device.go: the client of the device's HTTP interface.
pub mod Http
pub mod Retry
pub mod Info
pub mod Lists
pub mod Drives
pub mod Sent
