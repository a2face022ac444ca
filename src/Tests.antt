-- ===== src/Tests.antt =====
-- The theorems at concrete inputs, and tests of the definitions.
mod Terminal
mod Output
mod Cpm
mod Config
mod Bridge
mod Tui
mod Device
mod Panel
mod Delivery
mod Gateway
mod Session
