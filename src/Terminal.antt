-- ===== src/Terminal.antt =====
-- gateway-go/terminal.go: the inbound processor of one client session.
pub mod Input
pub mod Negotiate
pub mod Feed
pub mod Eol
pub mod Process
pub mod Chunks
pub mod Naws
pub mod Lines
pub mod Promises
pub mod Strip
pub mod Escape
