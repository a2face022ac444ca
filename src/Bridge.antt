-- ===== src/Bridge.antt =====
-- gateway-go/bridge.go: one client session, from the device's frames and the client's bytes to what
-- each side receives.
pub mod Ws
pub mod Session
pub mod Input
pub mod Turns
pub mod Transparent
pub mod Invariant
pub mod Delivery
pub mod Locks
pub mod Console
pub mod Pump
pub mod Buffer
pub mod Gateway
pub mod Admission
pub mod Reconnect
pub mod Cut
pub mod Sent
pub mod Keystrokes
pub mod Reads
pub mod Run
pub mod Client
pub mod Front
pub mod Handle
pub mod Stream
pub mod Live
pub mod Whole
pub mod Greeting
pub mod Snapshot
