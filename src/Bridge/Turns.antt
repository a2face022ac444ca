-- ===== src/Bridge/Turns.antt =====
-- gateway-go/bridge.go: the loop of `handleInput` ends.
use imsai_8080_esp_tty_gtw.Prelude.{
  Option-cases, inr, inl, Bool-cases, ℕ, zero, suc, ◌+◌, ◌*◌, ◌<◌, Bool, Bytes, [], ◌∷◌, Option,
  none, some, ◌≡◌, ◌≢◌, arith, length, get_or, take, ◌==◌, if◌then◌else◌,
}
use imsai_8080_esp_tty_gtw.Bridge.Session.{Panel, Session}
use imsai_8080_esp_tty_gtw.Bridge.Input.{
  cut_at, forward, forward_some, feed_panel, matched, handle_input,
}

pub length-cut_at :
    (b : ℕ) (xs pre post : Bytes) → cut_at b xs ≡ some (pre, post) → length post < length xs
unfolding cut_at
length-cut_at b [] pre post h = cc
length-cut_at b (c ∷ cs) pre post h = elim (Bool-cases (c == b)) [
  | inl e ↦ here (rw e at h)
  | inr e ↦ elim (Option-cases (cut_at b cs)) [
    | inl n ↦ nowhere (rw (e, n) at h)
    | inr ((pre', post'), p) ↦ later pre' (length-cut_at b cs pre' post' p) (rw (e, p) at h)
  ]
]
  where
    here :
        ◌≡◌ {A = Option (Bytes × Bytes)} (some ([], cs)) (some (pre, post))
        → length post < length (c ∷ cs)
    here e = ground arith

    nowhere :
        ◌≡◌ {A = Option (Bytes × Bytes)} none (some (pre, post)) → length post < length (c ∷ cs)
    nowhere e = cc

    later :
        {post' : Bytes} (pre' : Bytes)
        → length post' < length cs
        → ◌≡◌ {A = Option (Bytes × Bytes)} (some (c ∷ pre', post')) (some (pre, post))
        → length post < length (c ∷ cs)
    later pre' l e = ground arith

module _ {P : Type 0} (panel : Panel P) (accepts : ℕ → Bool) where
  -- One turn may be spent on giving up a partial match.
  abbrev pub pending : Session P → ℕ
  pending s = if s.hk_match == 0 then 0 else 1

  handle_input_ne_none :
      (turns : ℕ) (s : Session P) (bytes : Bytes)
      → 2 * length bytes + pending s < turns
      → handle_input panel accepts turns s bytes ≢ none
  unfolding handle_input
  handle_input_ne_none zero s bytes h = absurd (omega arith)
  handle_input_ne_none (suc turns) s [] h = λ e. cc
  handle_input_ne_none (suc turns) s (b ∷ bs) h =
      let hk = s.cfg.hotkey_bytes in
      let kept = (forward panel accepts s (take s.hk_match hk)).1 in
      let shown = handle_input_ne_none turns (feed_panel panel accepts s (b ∷ bs)) [] in
      let more = handle_input_ne_none turns (matched panel accepts s (s.hk_match + 1)) bs in
      let again = handle_input_ne_none turns (record kept { hk_match = 0 }) (b ∷ bs) in
      elim (Option-cases (cut_at (get_or hk 0 0) (b ∷ bs))) [
        | inl n ↦ ground (arith, shown, more, again, n)
        | inr ((pre, post), p) ↦ ground (
          arith,
          shown,
          more,
          again,
          p,
          length-cut_at (get_or hk 0 0) (b ∷ bs) pre post p,
          handle_input_ne_none turns (matched panel accepts (forward_some panel accepts s pre).1 1)
              post,
        )
      ]

  pub handle_input_total :
      (s : Session P) (bytes : Bytes)
      → (r : Session P × Bytes) × (handle_input panel accepts (2 * length bytes + 2) s bytes
          ≡ some r)
  handle_input_total s bytes =
      elim (Option-cases (handle_input panel accepts (2 * length bytes + 2) s bytes)) [
        | inl n ↦ absurd (handle_input_ne_none (2 * length bytes + 2) s bytes (ground arith) n)
        | inr found ↦ found
      ]
