-- ===== src/Config.antt =====
-- gateway-go/config.go: the settings, their sources and their validation.
pub mod Settings
pub mod Parse
pub mod Hotkey
pub mod Sources
pub mod Build
pub mod Valid
pub mod Chords
pub mod Precedence
