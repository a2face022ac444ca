-- ===== src/Sys.antt =====
-- gateway-go/sys.go: the text of the system pane.
pub mod Numbers
pub mod Format
pub mod Passwords
pub mod Secrets
