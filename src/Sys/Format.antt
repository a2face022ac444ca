-- ===== src/Sys/Format.antt =====
-- gateway-go/sys.go: `formatSysInfo`. The lines are joined section by section.
use imsai_8080_esp_tty_gtw.Prelude.{
  Bool, not, Bytes, List, [], ◌∷◌, ◌++◌, codes, ◌==◌, if◌then◌else◌, map, keep, text_eq, to_upper,
  trim_space, contains, pad_right, join, sort_on,
}
use imsai_8080_esp_tty_gtw.Word.{int_add}
use imsai_8080_esp_tty_gtw.Decimal.{show_int}
use imsai_8080_esp_tty_gtw.Tui.Ansi.{ansi_bold, ansi_reset}
use imsai_8080_esp_tty_gtw.Device.Info.{Uart, HalPort, MemEntry, SysInfo}
use imsai_8080_esp_tty_gtw.Sys.Numbers.{fmt_uptime, parity_str, show_hex4}

-- `kv`: the line it appends.
abbrev pub kv : Bytes → Bytes → Bytes
kv k v = codes "  " ++ (pad_right 13 (k ++ codes ":") ++ (codes " " ++ v))

-- `hdr` and the lines behind it.
abbrev pub section : List Bytes → Bytes → List Bytes → List Bytes
section [] h more = (ansi_bold ++ (h ++ ansi_reset)) ∷ more
section (l ∷ ls) h more = (l ∷ ls) ++ ([] ∷ (ansi_bold ++ (h ++ ansi_reset)) ∷ more)

-- A section that is there only if it has lines.
abbrev pub section_some : List Bytes → Bytes → List Bytes → List Bytes
section_some before h [] = before
section_some before h (l ∷ ls) = section before h (l ∷ ls)

abbrev pub kv_entry : Bytes × Bytes → Bytes
kv_entry (k, v) = kv k v

unfoldable pub about_lines : SysInfo → List Bytes
about_lines si =
    kv (codes "Firmware") (si.app_ver ++ (codes "  (" ++ (si.usr_rel ++ codes ")")))
    ∷ kv (codes "Description") si.usr_com
    ∷ kv (codes "CPU") si.cpu
    ∷ kv (codes "Copyright") si.usr_cpr
    ∷ []

unfoldable pub machine_lines : SysInfo → List Bytes
machine_lines si =
    kv (codes "Machine") (si.machine ++ (codes " / " ++ si.platform))
    ∷ kv (codes "Power") (if si.power == 0 then codes "OFF" else codes "ON")
    ∷ kv (codes "Errors") (
        codes "last="
        ++ (show_int si.last_error
            ++ (codes "  cpu="
                ++ (show_int si.cpu_error ++ (codes "  reset=" ++ show_int si.reset)))))
    ∷ []

unfoldable pub network_lines : SysInfo → List Bytes
network_lines si =
    kv (codes "Hostname") si.hostname
    ∷ kv (codes "IP") (si.ip ++ (codes "  (" ++ (si.net_interface ++ codes ")")))
    ∷ kv (codes "MAC") si.mac
    ∷ kv (codes "Wi-Fi") (
        si.ssid
        ++ (codes "  ch"
            ++ (show_int si.channel
                ++ (codes "  "
                    ++ (show_int si.signal
                        ++ (codes " dBm  "
                            ++ (si.bandwidth ++ (codes "  " ++ trim_space si.country))))))))
    ∷ []

unfoldable pub system_lines : SysInfo → List Bytes
system_lines si =
    kv (codes "IDF") si.idf_ver
    ∷ kv (codes "Free memory") (show_int si.free_mem ++ codes " bytes")
    ∷ kv (codes "Uptime") (fmt_uptime si.uptime)
    ∷ []

-- `m[k]`, where it is there.
abbrev pub entry_at : Bytes → List (Bytes × Bytes) → List Bytes
entry_at k [] = []
entry_at k ((k', v) ∷ es) = if text_eq k' k then kv k v ∷ [] else entry_at k es

unfoldable pub partition_lines : SysInfo → List Bytes
partition_lines si =
    entry_at (codes "run") si.partitions
    ++ (entry_at (codes "boot") si.partitions ++ entry_at (codes "next") si.partitions)

unfoldable pub uart_line : Uart → Bytes
uart_line u = kv u.name (
    show_int u.baudrate
    ++ (codes " baud  "
        ++ (show_int (int_add u.word 5) ++ (parity_str u.parity ++ show_int u.stopbits))))

abbrev pub hal_line : HalPort → Bytes
hal_line p = kv p.name (join (codes ", ") p.devices)

unfoldable pub mem_line : MemEntry → Bytes
mem_line mm =
    codes "  "
    ++ (mm.kind
        ++ (codes " "
            ++ (show_hex4 mm.first
                ++ (codes "-"
                    ++ (show_hex4 mm.last
                        ++ (if text_eq mm.file [] then [] else codes "  " ++ mm.file))))))

abbrev pub is_blank : Bytes → Bool
is_blank e = text_eq (trim_space e) []

unfoldable pub memory_lines : SysInfo → List Bytes
memory_lines si =
    map mem_line si.memmap ++ map (λ e. codes "  " ++ e) (keep (λ e. not (is_blank e)) si.memextra)

abbrev pub is_secret : Bytes → Bool
is_secret k = contains (to_upper k) (codes "PASSWORD")

-- The value of a variable for a password is masked.
abbrev pub env_line : Bytes × Bytes → Bytes
env_line (k, v) = kv k (if is_secret k then codes "********" else v)

unfoldable pub env_lines : List (Bytes × Bytes) → List Bytes
env_lines env = map env_line (sort_on (λ e. e.0) env)

-- The sections before the environment.
unfoldable pub open_lines : SysInfo → List Bytes
unfolding about_lines machine_lines network_lines system_lines partition_lines uart_line mem_line
    memory_lines
open_lines si =
    let l1 = section [] (codes "About") (about_lines si) in
    let l2 = section l1 (codes "Machine") (machine_lines si) in
    let l3 = section l2 (codes "Network") (network_lines si) in
    let l4 = section l3 (codes "System") (system_lines si) in
    let l5 = section l4 (codes "Paths") (map kv_entry (sort_on (λ e. e.0) si.paths)) in
    let l6 = section l5 (codes "Partitions") (partition_lines si) in
    let l7 = section_some l6 (codes "UARTs") (map uart_line si.uarts) in
    let l8 = section_some l7 (codes "HAL ports") (map hal_line si.hal_ports) in
    section l8 (codes "Memory") (memory_lines si)

unfoldable pub format_sys_info : SysInfo → List Bytes
unfolding open_lines env_lines
format_sys_info si = section (open_lines si) (codes "Config (env)") (env_lines si.env)
