-- ===== src/Device/Info.antt =====
-- gateway-go/device.go: `sysInfo`. An `int` or `int64` is a pattern of module Word; a map is its
-- entries, whose keys differ.
use imsai_8080_esp_tty_gtw.Prelude.{ℕ, Bytes, List}

pub record Uart : Type 0 where
  pub name : Bytes
  pub baudrate : ℕ
  pub word : ℕ
  pub stopbits : ℕ
  pub parity : ℕ

pub record HalPort : Type 0 where
  pub name : Bytes
  pub devices : List Bytes

pub record MemEntry : Type 0 where
  pub kind : Bytes
  pub first : ℕ
  pub last : ℕ
  pub file : Bytes

pub record SysInfo : Type 0 where
  pub machine : Bytes
  pub platform : Bytes
  pub net_interface : Bytes
  pub mac : Bytes
  pub ip : Bytes
  pub hostname : Bytes
  pub ssid : Bytes
  pub channel : ℕ
  pub signal : ℕ
  pub bandwidth : Bytes
  pub country : Bytes
  pub paths : List (Bytes × Bytes)
  pub idf_ver : Bytes
  pub free_mem : ℕ
  pub uptime : ℕ
  pub last_error : ℕ
  pub cpu_error : ℕ
  pub reset : ℕ
  pub power : ℕ
  pub app_ver : Bytes
  pub usr_com : Bytes
  pub usr_rel : Bytes
  pub usr_cpr : Bytes
  pub cpu : Bytes
  pub partitions : List (Bytes × Bytes)
  pub uarts : List Uart
  pub hal_ports : List HalPort
  pub memmap : List MemEntry
  pub memextra : List Bytes
  pub env : List (Bytes × Bytes)
