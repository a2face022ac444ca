-- ===== src/Output.antt =====
-- gateway-go/outwrap.go: the filter on the console's output.
pub mod Params
pub mod Filter
pub mod Streaming
pub mod Width
pub mod Cursor
