-- ===== src/Device/Sent.antt =====
-- gateway-go/device.go: the requests that a call adds to those sent before.
use imsai_8080_esp_tty_gtw.Prelude.{
  ℕ, zero, suc, Bytes, List, [], ◌∷◌, ◌++◌, ◌≡◌, refl, ap, ◌∙◌, inl, inr, All, All-++, append_assoc,
  Bool-cases, ◌==◌,
}
use imsai_8080_esp_tty_gtw.Config.Settings.{Config}
use imsai_8080_esp_tty_gtw.Device.Http.{Net, Request, get_url, get_loop, http_get_body}
use imsai_8080_esp_tty_gtw.Device.Retry.{Answer-cases}
use imsai_8080_esp_tty_gtw.Device.Lists.{
  Codec, get_disks, get_library, get_library_detailed, get_machine, get_system, download_image,
}

-- `log'` is `log` with newer requests, each of which is in `P`.
abbrev pub Adds : (Request → Type 0) → List Request → List Request → Type 0
Adds P log log' = (new : List Request) × (log' ≡ new ++ log) × All P new

module _ (P : Request → Type 0) where
  pub none-Adds : (log : List Request) → Adds P log log
  none-Adds log = ([], refl, tt)

  pub one-Adds : (r : Request) (log : List Request) → P r → Adds P log (r ∷ log)
  one-Adds r log p = (r ∷ [], refl, (p, tt))

  pub both-Adds :
      (log log1 log2 : List Request) → Adds P log log1 → Adds P log1 log2 → Adds P log log2
  both-Adds log log1 log2 (new, e, p) (new', e', p') = (
    new' ++ new,
    e' ∙ ap (λ (l : List Request). new' ++ l) e ∙ append_sym new' new log,
    All-++ P new' new p' p,
  )
    where
      append_sym : (xs ys zs : List Request) → xs ++ (ys ++ zs) ≡ (xs ++ ys) ++ zs
      append_sym xs ys zs = rw append_assoc

module _ (P : Request → Type 0) (gets : (url : Bytes) → P (get_url url)) (net : Net) where
  get_loop-Adds :
      (left : ℕ) (log : List Request) (url what last : Bytes)
      → Adds P log (get_loop left net log url what last).1
  unfolding get_loop
  get_loop-Adds zero log url what last = none-Adds P log
  get_loop-Adds (suc left) log url what last =
      let log1 = get_url url ∷ log in
      let first = one-Adds P (get_url url) log (gets url) in
      let more = λ (e : Bytes).
        both-Adds P log log1 (get_loop left net log1 url what e).1 first
          (get_loop-Adds left log1 url what e) in
      elim (Answer-cases (net log1)) [
        | inl (e, a) ↦ rw (a, get_loop) (more e)
        | inr (inl (code, e, a)) ↦ elim (Bool-cases (code == 200)) [
          | inl good ↦ rw (a, good, get_loop) (more e)
          | inr bad ↦ rw (a, bad, get_loop) first
        ]
        | inr (inr (code, b, a)) ↦ elim (Bool-cases (code == 200)) [
          | inl good ↦ rw (a, good, get_loop) first
          | inr bad ↦ rw (a, bad, get_loop) first
        ]
      ]

  http_get_body-Adds :
      (log : List Request) (url what : Bytes) → Adds P log (http_get_body net log url what).1
  unfolding http_get_body
  http_get_body-Adds log url what = get_loop-Adds 2 log url what []

  module _ (codec : Codec) (cfg : Config) (log : List Request) where
    pub get_disks-Adds : Adds P log (get_disks net codec cfg log).1
    unfolding get_disks
    get_disks-Adds = http_get_body-Adds log _ _

    pub get_library-Adds : Adds P log (get_library net codec cfg log).1
    unfolding get_library
    get_library-Adds = http_get_body-Adds log _ _

    pub get_library_detailed-Adds : Adds P log (get_library_detailed net codec cfg log).1
    unfolding get_library_detailed
    get_library_detailed-Adds = http_get_body-Adds log _ _

    pub get_machine-Adds : Adds P log (get_machine net codec cfg log).1
    unfolding get_machine
    get_machine-Adds = http_get_body-Adds log _ _

    pub get_system-Adds : Adds P log (get_system net codec cfg log).1
    unfolding get_system
    get_system-Adds = http_get_body-Adds log _ _

    pub download_image-Adds :
        (machine file : Bytes) → Adds P log (download_image net codec cfg log machine file).1
    unfolding download_image
    download_image-Adds machine file = one-Adds P _ log (gets _)
