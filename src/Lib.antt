-- ===== src/Lib.antt =====
-- The gateway between TCP clients and the console of an IMSAI 8080 replica (gateway-go/): a client
-- connects by TCP, its keystrokes go to the device's /tty WebSocket, the device's output comes back,
-- and a hotkey opens a control panel on the client's terminal.
--
-- Parts, and how they interact:
--   Terminal   gateway-go/terminal.go: `TerminalInput`, the bytes of the client. Input has the state
--              and the numbers of Telnet, Negotiate the options (`Initial`, `negotiate`), Feed the
--              parser (`feedTelnet`, `handleSubneg`), Eol the ends of line, Process `Process`. What it
--              cleans goes to `handleInput`, its replies to the client.
--   Output     gateway-go/outwrap.go: `outProc`, the device's bytes: Params reads CSI parameters,
--              Filter is the state and `process`.
--   Cpm        gateway-go/cpmdir.go: the directory of a disk image: Geometry, Names, and Directory with
--              `listCPMByUser`.
--   Config     gateway-go/config.go: Settings is `Config`, Parse `parseResize`, Hotkey `parseHotkey`,
--              Sources the file, the environment and the flags, Build `buildConfig` and its checks.
--   Device     gateway-go/device.go: Http is `httpGetBody` and `doStatusOnly`, Info `sysInfo`, Lists what
--              is read from the device (`getDisks` to `downloadImage`), Drives the requests that change
--              something (`mountDisk`, `ejectDisk`, `deleteLibraryImage`).
--   Sys        gateway-go/sys.go: Numbers and Format, the lines of `formatSysInfo`.
--   Tui        gateway-go/tui.go: Ansi is the control sequences and the columns of text, Keys
--              `keyDecoder`, Model `tuiModel` and its helpers, Rows and Draw `tuiDraw`, Cpa the front
--              panel with its connection (gateway-go/cpa.go) and `readCPALoop` of
--              gateway-go/bridge.go, Disks and Library the handlers of
--              their panes and of the preview, Modes the keys of each mode, Handle `tuiKey` and
--              `tuiFeed`. Sound is what holds of the panel between two keys, Requests what it may
--              send, Safe that every key keeps it, Due what it does send.
--   Bridge     gateway-go/bridge.go: Ws is `sendToWS`, Session `bridgeSession`, Input `handleInput`,
--              Reads the loop of `pumpTCPToWS` over the Terminal processor,
--              Console the buffer of the open panel (`enterTUI`, `exitTUI`, the end of `runBridge`),
--              Pump `pumpWSToTCP` around the Output filter, Gateway the admission of clients and the
--              reconnections of `handleClient`, Greeting what a client is told on its first connection
--              (`openCPA`, `probeCPA`, `machineState`, the banner). Input works for any panel; Live is
--              that of Tui, and Whole the two together. Delivery takes the two pumps step by step, a
--              frame or a read at a time, and Locks takes the device's pump apart where it releases the
--              lock. Run is `runBridge` with both pumps and their errors, over a list of events before
--              the WebSocket is closed and one of those after it; Client is the loop of
--              `handleClient` over a list of visits to the device, Front the panel and the greeting as
--              that loop uses them, Handle the whole `handleClient`.
--   Log        gateway-go/main.go: `logOrder`, `setLogLevel`, `logf`.
--   Gateway    gateway-go/bridge.go, gateway-go/main.go: `serve` and `main`.
-- The other children of these modules are proofs. Prelude, Word and Decimal are shared, Tests has
-- the theorems at concrete inputs.
--
-- Conventions: a byte is a number and a text a list of them. A Go int is a pattern below 2 ^ 64
-- (Word), where the code does arithmetic on it. An operation on shared state returns the new state,
-- with the bytes that it writes; the requests sent to the device are a log, the newest first. An
-- index out of range, a panic of the code, is `none`. A call of `fatal` and an error are values of
-- `Result`. A delay is a number of nanoseconds.
--
-- Fuel: the loop of `handleInput` runs on a number of turns; a turn takes at least a byte or gives
-- up a started hotkey, so that twice the bytes and two more suffice (Bridge/Turns). The digits of a
-- number are at most as many as the number and one (Decimal), and 16 hexadecimal ones are enough
-- for 64 bits (Sys/Numbers). `httpGetBody` counts its two attempts down. All other loops go through
-- a list.
--
-- Parameters: what `strconv.ParseFloat` and `float64` make of a duration (Config `Floats`), what
-- the TOML decoder and the file system find (`FileState`), what the device answers to the newest
-- request of a log (Device `Net`), what the JSON decoder makes of a body, the escape of a path and
-- the clock (Device `Codec`), which messages on /cpa fail and what is heard after them (Tui
-- `Outside`), whether a write to the WebSocket succeeds (`accepts`) and one to the
-- client (`writable`), what a connection meets (`Event`) and a dial (`Visit`), what the listener and
-- the capture file give, the texts of a delay and of the seconds of a session, and for the proofs
-- of `handleInput` the panel (Bridge `Panel`).
--
-- Not modelled: sockets, goroutines and mutexes but for the order of the steps of Bridge/Gateway,
-- Bridge/Delivery, Bridge/Locks and Bridge/Run, each of them whole; the calls of the WebSocket library
-- and of net, of which a dial, the end of /tty, the keep-alive and the end of a client's connection
-- are lines of a list of calls (Bridge/Client); the line of the log of a failed dial of /cpa; the
-- flags of the log package. A failed write to the client is taken to write nothing; the panel's own
-- writes (`enterTUI`, `exitTUI`, `tuiFeed`), whose errors the code ignores, are taken to succeed. A
-- pump that is blocked in a write takes no turn: how long it stays blocked is left open, and a
-- bridge whose second pump does not end runs on. While the panel is open its window keeps its size,
-- and /cpa is read only while a handler waits for it. `strings.TrimSpace` cuts ASCII white space
-- only, `strings.ToUpper` and `strings.ToLower` change ASCII letters only, the widths of fmt count
-- bytes, entries of equal names keep the order
-- of the device where `sort.Slice` may swap them, and the texts of errors quote without escapes.
pub mod Prelude
pub mod Word
pub mod Decimal
pub mod Terminal
pub mod Log
pub mod Output
pub mod Config
pub mod Cpm
pub mod Device
pub mod Sys
pub mod Tui
pub mod Bridge
pub mod Gateway
mod Tests
