-- ===== src/Device/Http.antt =====
-- gateway-go/device.go: `httpGetBody`, `doStatusOnly` and `deviceBase`. The HTTP transport is a
-- parameter: what it gives for the last of the requests of the program, the newest first. A request
-- that cannot be made, or sent, is `failed`.
use imsai_8080_esp_tty_gtw.Prelude.{
  ℕ, zero, suc, true, false, Bytes, List, [], ◌∷◌, ◌++◌, Result, ok, err, codes, ◌==◌,
  if◌then◌else◌,
}
use imsai_8080_esp_tty_gtw.Decimal.{show_nat, show_int}
use imsai_8080_esp_tty_gtw.Config.Settings.{Config}

pub data Method : Type 0 where
  get_method : Method
  put_method : Method
  delete_method : Method

pub record Request : Type 0 where
  pub method : Method
  pub url : Bytes
  pub body : Bytes

-- An error of the connection, or a status code and what reading the body gives.
pub data Answer : Type 0 where
  failed : Bytes → Answer
  answered : ℕ → Result Bytes → Answer

abbrev pub Net : Type 0
Net = List Request → Answer

abbrev pub get_url : Bytes → Request
get_url url = record { method = get_method; url = url; body = [] }

abbrev pub with_what : Bytes → Bytes → Bytes
with_what what message = what ++ (codes ": " ++ message)

abbrev pub bad_status : Bytes → ℕ → Bytes
bad_status what code = with_what what (codes "HTTP " ++ show_nat code)

-- The loop, for the attempts that are left; `last` is `lastErr`, `log` the requests before.
unfoldable pub get_loop :
    ℕ → Net → List Request → Bytes → Bytes → Bytes → Result Bytes × List Request
get_loop zero net log url what last = (err (with_what what last), log)
get_loop (suc left) net log url what last =
    let log' = get_url url ∷ log in
    elim (net log') [
      | failed e ↦ get_loop left net log' url what e
      | answered code body ↦ elim (code == 200) [
        | false ↦ (err (bad_status what code), log')
        | true ↦ elim body [ err e ↦ get_loop left net log' url what e | ok b ↦ (ok b, log') ]
      ]
    ]

unfoldable pub http_get_body : Net → List Request → Bytes → Bytes → Result Bytes × List Request
http_get_body net log url what = get_loop 2 net log url what []

-- The body is thrown away, with an error in it.
abbrev pub status_of : Bytes → Answer → Result (Unit {0})
status_of what (failed e) = err e
status_of what (answered code body) = if code == 200 then ok tt else err (bad_status what code)

unfoldable pub do_status_only :
    Net → List Request → Request → Bytes → Result (Unit {0}) × List Request
do_status_only net log req what = (status_of what (net (req ∷ log)), req ∷ log)

unfoldable pub device_base : Config → Bytes
device_base cfg = codes "http://" ++ (cfg.host ++ (codes ":" ++ show_int cfg.ws_port))
