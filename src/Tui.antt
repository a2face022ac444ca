-- ===== src/Tui.antt =====
-- gateway-go/tui.go: the control panel of a session.
pub mod Ansi
pub mod Keys
pub mod Typing
pub mod Model
pub mod Rows
pub mod Draw
pub mod Cpa
pub mod Disks
pub mod Library
pub mod Modes
pub mod Handle
pub mod Sound
pub mod Window
pub mod Requests
pub mod Safe
pub mod Due
