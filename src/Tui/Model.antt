-- ===== src/Tui/Model.antt =====
-- gateway-go/tui.go: the state of the control panel (`tuiModel`), what of the session it uses, and
-- its helpers. Indices and sizes are natural numbers: the source's are never negative but for a
-- difference, which `minus` gives as `none` then.
use imsai_8080_esp_tty_gtw.Prelude.{
  ℕ, ◌+◌, ◌-◌, Bool, false, ◌&&◌, ◌||◌, Bytes, List, [], ◌∷◌, Option, none, some, codes, ltb, leb,
  ◌==◌, if◌then◌else◌, length, keep, get_elem?, to_lower, has_suffix,
}
use imsai_8080_esp_tty_gtw.Config.Settings.{Config}
use imsai_8080_esp_tty_gtw.Cpm.Directory.{CpmFile}
use imsai_8080_esp_tty_gtw.Device.Http.{Net, Request}
use imsai_8080_esp_tty_gtw.Device.Lists.{Codec, DriveEntry, LibEntry}
use imsai_8080_esp_tty_gtw.Tui.Keys.{KeyDecoder, new_decoder}

pub data Mode : Type 0 where
  tm_disks : Mode
  tm_library : Mode
  tm_panel : Mode
  tm_system : Mode
  tm_lib : Mode
  tm_lib_preview : Mode

-- `confirm_act` is the image that the action deletes: the source's closure is made in one place.
pub record TuiModel : Type 0 where
  pub mode : Mode
  pub disks : List DriveEntry
  pub sel : ℕ
  pub library : List Bytes
  pub lib_loaded : Bool
  pub lib_view : List Bytes
  pub lib_sel : ℕ
  pub lib_for : Bytes
  pub sel_sw : ℕ
  pub sys_lines : List Bytes
  pub sys_scroll : ℕ
  pub machine : Bytes
  pub lib_items : List LibEntry
  pub lib_item_sel : ℕ
  pub lib_items_loaded : Bool
  pub prev_name : Bytes
  pub prev_by_user : ℕ → List CpmFile
  pub prev_users : List ℕ
  pub prev_user_idx : ℕ
  pub prev_lines : List Bytes
  pub prev_scroll : ℕ
  pub confirm : Bool
  pub confirm_msg : Bytes
  pub confirm_act : Option Bytes
  pub status : Bytes
  pub page_step : ℕ
  pub dec : KeyDecoder

-- `&tuiModel{mode: tmDisks}`.
abbrev pub new_model : TuiModel
new_model = record {
  mode = tm_disks;
  disks = [];
  sel = 0;
  library = [];
  lib_loaded = false;
  lib_view = [];
  lib_sel = 0;
  lib_for = [];
  sel_sw = 0;
  sys_lines = [];
  sys_scroll = 0;
  machine = [];
  lib_items = [];
  lib_item_sel = 0;
  lib_items_loaded = false;
  prev_name = [];
  prev_by_user = λ u. [];
  prev_users = [];
  prev_user_idx = 0;
  prev_lines = [];
  prev_scroll = 0;
  confirm = false;
  confirm_msg = [];
  confirm_act = none;
  status = [];
  page_step = 0;
  dec = new_decoder;
}

-- The panel and what it shares with the session: the requests sent to the device, the newest first;
-- /cpa (`none`: not connected), as the messages sent on it, the newest first; the latest status read
-- from it; the size of the window; and what was written to the client.
pub record Control : Type 0 where
  pub m : TuiModel
  pub log : List Request
  pub cpa : Option (List Bytes)
  pub cpa_status : Bytes
  pub size : Option (ℕ × ℕ)
  pub out : Bytes

-- The device, from outside: HTTP; the error of the last message sent on /cpa, if it fails; and the
-- messages that come on /cpa while the panel waits for it to settle.
pub record Outside : Type 0 where
  pub cfg : Config
  pub net : Net
  pub codec : Codec
  pub cpa_send : List Bytes → Option Bytes
  pub cpa_heard : List Bytes → List Bytes

unfoldable pub step : TuiModel → ℕ
step m = if ltb 0 m.page_step then m.page_step else 10

abbrev pub minus : ℕ → ℕ → Option ℕ
minus a b = if leb b a then some (a - b) else none

-- A negative index is `none`.
unfoldable pub clamp_index : Option ℕ → ℕ → ℕ
clamp_index none n = 0
clamp_index (some i) n = if n == 0 then 0 else if ltb (n - 1) i then n - 1 else i

-- `if sel > 0 { sel-- }` and `if sel < n-1 { sel++ }`.
abbrev pub up_one : ℕ → ℕ
up_one sel = if ltb 0 sel then sel - 1 else sel

abbrev pub down_one : ℕ → ℕ → ℕ
down_one sel n = if ltb (sel + 1) n then sel + 1 else sel

abbrev pub page_up : TuiModel → ℕ → ℕ → ℕ
page_up m sel n = clamp_index (minus sel (step m)) n

abbrev pub page_down : TuiModel → ℕ → ℕ → ℕ
page_down m sel n = clamp_index (some (sel + step m)) n

-- `if sel >= n { sel = max(0, n-1) }`.
abbrev pub keep_within : ℕ → ℕ → ℕ
keep_within sel n = if leb n sel then n - 1 else sel

pub record PanelSwitch : Type 0 where
  pub up_label : Bytes
  pub down_label : Bytes
  pub up_code : Bytes
  pub down_code : Bytes

abbrev pub switch : Bytes → Bytes → Bytes → Bytes → PanelSwitch
switch ul dl uc dc = record { up_label = ul; down_label = dl; up_code = uc; down_code = dc }

abbrev pub panel_switches : List PanelSwitch
panel_switches =
    switch (codes "EXAMINE") (codes "EX.NEXT") (codes "eu") (codes "ed")
    ∷ switch (codes "DEPOSIT") (codes "DEP.NEXT") (codes "du") (codes "dd")
    ∷ switch (codes "RESET") (codes "EXT.CLR") (codes "cu") (codes "cd")
    ∷ switch (codes "RUN") (codes "STOP") (codes "ru") (codes "rd")
    ∷ switch (codes "S.STEP") (codes "S.STEP") (codes "su") (codes "sd")
    ∷ switch (codes "PWR ON") (codes "PWR OFF") [] []
    ∷ []

abbrev pub is_byte_at : Bytes → ℕ → ℕ → Bool
is_byte_at s i c = elim (get_elem? s i) [ none ↦ false | some b ↦ b == c ]

unfoldable pub led_on : Bytes → ℕ → ℕ → Bool
led_on status idx ch = ltb idx (length status) && is_byte_at status idx ch

abbrev pub is_dsk : Bytes → Bool
is_dsk f = has_suffix (to_lower f) (codes ".dsk")

unfoldable pub filter_dsk : List Bytes → List Bytes
filter_dsk names = keep is_dsk names

abbrev pub is_image : LibEntry → Bool
is_image e = is_dsk e.filename || has_suffix (to_lower e.filename) (codes ".hdd")

unfoldable pub filter_disk_images : List LibEntry → List LibEntry
filter_disk_images items = keep is_image items
