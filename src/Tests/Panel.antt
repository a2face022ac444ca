-- ===== src/Tests/Panel.antt =====
-- The control panel on a device with a floppy in drive A and the hard disk.
use imsai_8080_esp_tty_gtw.Prelude.{
  true, Bool, Option, ◌++◌, ℕ, ◌<◌, false, Bytes, List, [], ◌∷◌, none, some, ok, codes, ◌≡◌, refl,
  ◌⊎◌, inl, inr, arith, text_eq, map, to_upper, to_lower, has_prefix,
}
use imsai_8080_esp_tty_gtw.Config.Settings.{default_config}
use imsai_8080_esp_tty_gtw.Device.Http.{
  device_base, do_status_only, Request, get_url, http_get_body, get_loop, answered,
}
use imsai_8080_esp_tty_gtw.Device.Info.{SysInfo}
use imsai_8080_esp_tty_gtw.Device.Lists.{
  DriveEntry, drives_of, get_disks, is_hard_disk, get_system, drive_entry,
}
use imsai_8080_esp_tty_gtw.Tui.Keys.{k_down, k_char}
use imsai_8080_esp_tty_gtw.Tui.Model.{Control, Outside, new_model}
use imsai_8080_esp_tty_gtw.Tui.Requests.{IsAllowed, IsHarmless}
use imsai_8080_esp_tty_gtw.Tui.Modes.{disks_char, disks_key}
use imsai_8080_esp_tty_gtw.Tui.Handle.{mode_key, tui_key, tui_keys, tui_feed}
use imsai_8080_esp_tty_gtw.Tui.Due.{IsDue, due_eject, Sends, tui_key-IsDue}
use imsai_8080_esp_tty_gtw.Tui.Sound.{IsSound}
use imsai_8080_esp_tty_gtw.Tui.Window.{IsPart, marked_row, list_pane-marked_row}
use imsai_8080_esp_tty_gtw.Tui.Draw.{product_name, version, list_pane, bottom_row}
use imsai_8080_esp_tty_gtw.Tui.Safe.Keys.{Answers}
use imsai_8080_esp_tty_gtw.Tui.Safe.Feed.{tui_key-Answers, tui_feed-Answers}
use imsai_8080_esp_tty_gtw.Bridge.Snapshot.{heard_on, IsTold, machine_state-led_on}
use imsai_8080_esp_tty_gtw.Bridge.Greeting.{
  cpa_state, banner, console_hint, machine_state, probe_cpa, crlf, cpu_stopped,
}
use imsai_8080_esp_tty_gtw.Sys.Secrets.{AreAlike, format_sys_info_hides}
use imsai_8080_esp_tty_gtw.Sys.Format.{format_sys_info}
use imsai_8080_esp_tty_gtw.Device.Drives.{eject_disk, eject_request}
use imsai_8080_esp_tty_gtw.Tui.Disks.{refresh_disks, eject_drive, do_eject}
use imsai_8080_esp_tty_gtw.Decimal.{show_nat, show_int}
use imsai_8080_esp_tty_gtw.Tui.Cpa.{hear_all, settle}

abbrev pub some_system : SysInfo
some_system = record {
  machine = codes "imsai";
  platform = codes "esp32";
  net_interface = codes "sta";
  mac = codes "00:00:00:00:00:00";
  ip = codes "10.0.0.2";
  hostname = codes "imsai";
  ssid = codes "lab";
  channel = 6;
  signal = 40;
  bandwidth = codes "20 MHz";
  country = codes "AT";
  paths = [];
  idf_ver = codes "v5";
  free_mem = 65536;
  uptime = 90061;
  last_error = 0;
  cpu_error = 0;
  reset = 1;
  power = 1;
  app_ver = codes "1.9";
  usr_com = codes "replica";
  usr_rel = codes "1";
  usr_cpr = [];
  cpu = codes "8080";
  partitions = [];
  uarts = [];
  hal_ports = [];
  memmap = [];
  memextra = [];
  env = (codes "WIFI_PASSWORD", codes "sesame") ∷ (codes "TZ", codes "UTC") ∷ [];
}

-- The listing of the drives is the only answer that the decoder makes something of.
abbrev pub two_drives : List (Bytes × Bytes)
two_drives = (codes "A", codes "cpm.dsk") ∷ (codes "I", codes "big.hdd") ∷ []

abbrev pub device : Outside
device = record {
  cfg = default_config;
  net = λ log. answered 200 (ok (codes "{}"));
  codec = record {
    decode_disks = λ b. ok two_drives;
    decode_library = λ b. ok [];
    decode_machine = λ b. ok (codes "imsai");
    decode_system = λ b. ok some_system;
    path_escape = λ b. b;
    now = λ n. n;
  };
  cpa_send = λ sent. none;
  cpa_heard = λ sent. [];
}

abbrev pub opened : Control
opened = record {
  m = record new_model { disks = map drive_entry two_drives };
  log = [];
  cpa = none;
  cpa_status = [];
  size = some (80, 24);
  out = [];
}

pub opened-IsSound : IsSound opened.m
unfolding text_eq
opened-IsSound = record {
  sel_in = inr (omega arith);
  switch_in = omega arith;
  marked = (refl, (refl, tt));
  target = refl;
  asked = inl refl;
}

tui_key-Answers_example :
    Answers
      (IsAllowed device.cfg opened.m (k_char b'e'))
      opened
      (tui_key device opened (k_char b'e'))
tui_key-Answers_example = tui_key-Answers device opened (k_char b'e') opened-IsSound

tui_feed-Answers_example :
    Answers (IsHarmless device.cfg) opened (tui_feed device opened (codes "re"))
tui_feed-Answers_example = tui_feed-Answers device opened (codes "re") opened-IsSound

abbrev three_images : List Bytes
three_images = codes " a.dsk" ∷ codes " b.dsk" ∷ codes " c.dsk" ∷ []

list_pane-marked_row_example :
    (let pane = list_pane opened.m 79 24 2 (codes "Images:") three_images [] in
      (row : ℕ) × IsPart (marked_row 79 row (codes " c.dsk")) pane.drawn
      × (5 < row)
      × (row < pane.next_row)
      × (pane.next_row < bottom_row 24 pane.next_row)
      × ((24 < 9) ⊎ (bottom_row 24 pane.next_row < 24)))
list_pane-marked_row_example =
    list_pane-marked_row opened.m 79 24 2 (codes "Images:") three_images [] (codes " c.dsk") refl

alike :
    AreAlike some_system.env
      ((codes "WIFI_PASSWORD", codes "xyzzy") ∷ (codes "TZ", codes "UTC") ∷ [])
unfolding to_upper
alike = (refl, inr (codes "WIFI_", codes "PASSWORD", [], refl, refl), (refl, inl refl, tt))

format_sys_info_hides_example :
    format_sys_info some_system
    ≡ format_sys_info (record some_system {
      env = (codes "WIFI_PASSWORD", codes "xyzzy") ∷ (codes "TZ", codes "UTC") ∷ [];
    })
format_sys_info_hides_example =
    format_sys_info_hides some_system
      ((codes "WIFI_PASSWORD", codes "xyzzy") ∷ (codes "TZ", codes "UTC") ∷ []) alike

-- A front panel that shows POWER and RUN.
abbrev lit : Outside
lit = record device { cpa_heard = λ sent. codes "U-R" ∷ [] }

abbrev with_cpa : Control
with_cpa = record opened { cpa = some [] }

machine_state-led_on_example :
    IsTold lit with_cpa.log
      (heard_on lit with_cpa.cpa_status with_cpa.cpa)
      (machine_state lit with_cpa)
machine_state-led_on_example = machine_state-led_on lit with_cpa

told_running : (machine_state lit with_cpa).0 ≡ (true, true, true)
unfolding machine_state probe_cpa settle cpa_state hear_all
told_running = refl

-- Without the panel there is no /cpa: a machine that is on is said to be stopped.
told_stopped :
    banner (record default_config { tui = false }) (machine_state device opened).0
    ≡ (crlf ++ (codes "Connected to " ++ (product_name ++ (codes " v" ++ (version ++ crlf)))))
      ++ (cpu_stopped default_config ++ (codes "POWER is ON and RUN is OFF" ++ crlf))
unfolding banner console_hint machine_state probe_cpa get_system http_get_body get_loop
told_stopped = refl

abbrev log_of : Option (Control × Bool) → List Request
log_of none = []
log_of (some (c, exited)) = c.log

-- The floppy is ejected and the drives are listed again; the hard disk is not ejected.
floppy_ejected :
    log_of (tui_key device opened (k_char b'e'))
    ≡ get_url (codes "http://:80/disks?1") ∷ eject_request default_config (codes "A") ∷ []
unfolding tui_key mode_key disks_key disks_char do_eject eject_drive eject_disk do_status_only
    refresh_disks get_disks http_get_body get_loop drives_of is_hard_disk text_eq device_base
    show_nat has_prefix to_lower show_int
floppy_ejected = refl

hard_disk_kept : log_of (tui_keys device opened (k_down ∷ k_char b'e' ∷ [])) ≡ []
unfolding tui_keys tui_key mode_key disks_key disks_char do_eject eject_drive is_hard_disk text_eq
hard_disk_kept = refl

abbrev floppy : DriveEntry
floppy = drive_entry (codes "A", codes "cpm.dsk")

eject_request-IsDue : IsDue device.cfg opened.m (k_char b'e') (eject_request device.cfg floppy.id)
unfolding is_hard_disk text_eq has_prefix to_lower
eject_request-IsDue = due_eject floppy refl refl refl refl refl

tui_key-IsDue_example :
    Sends opened (eject_request device.cfg floppy.id) (tui_key device opened (k_char b'e'))
tui_key-IsDue_example =
    tui_key-IsDue device opened (k_char b'e') (eject_request device.cfg floppy.id) opened-IsSound
      eject_request-IsDue
