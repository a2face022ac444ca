-- ===== src/Tests/Device.antt =====
-- A request that fails once.
use imsai_8080_esp_tty_gtw.Prelude.{
  ◌∷◌, [], length, Bytes, true, false, ok, codes, ◌==◌, if◌then◌else◌, ◌≡◌, refl, ◌⊎◌,
}
use imsai_8080_esp_tty_gtw.Device.Http.{Net, get_url, failed, answered, get_loop, http_get_body}
use imsai_8080_esp_tty_gtw.Device.Retry.{is_transient, verdict, http_get_body_once_more}

abbrev flaky : Net
flaky log = if length log == 1 then failed (codes "timeout") else answered 200 (ok (codes "{}"))

abbrev disks_url : Bytes
disks_url = codes "http://imsai:80/disks?0"

http_get_body_once_more_example :
    (let log1 = get_url disks_url ∷ [] in
      (is_transient (flaky log1) ≡ false)
      × (http_get_body flaky [] disks_url (codes "disks")
          ≡ (verdict (codes "disks") (flaky log1), log1)))
    ⊎ (let log1 = get_url disks_url ∷ [] in
        let log2 = get_url disks_url ∷ log1 in
        (is_transient (flaky log1) ≡ true)
        × (http_get_body flaky [] disks_url (codes "disks")
            ≡ (verdict (codes "disks") (flaky log2), log2)))
http_get_body_once_more_example = http_get_body_once_more flaky [] disks_url (codes "disks")

flaky_get :
    http_get_body flaky [] disks_url (codes "disks")
    ≡ (ok (codes "{}"), get_url disks_url ∷ get_url disks_url ∷ [])
unfolding http_get_body get_loop
flaky_get = refl
