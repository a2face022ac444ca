-- ===== src/Bridge/Admission.antt =====
-- gateway-go/bridge.go: how many sessions there are, and how long the gateway tries to reconnect.
use imsai_8080_esp_tty_gtw.Prelude.{
  ap, ◌∙◌, ℕ, suc, ◌+◌, ◌≤◌, ◌<◌, true, false, List, ◌∷◌, ◌++◌, ◌≡◌, refl, arith, length,
  length-append, Bool-cases, inl, inr, ◌⊎◌,
}
use imsai_8080_esp_tty_gtw.Word.{is_pos}
use imsai_8080_esp_tty_gtw.Config.Settings.{Config}
use imsai_8080_esp_tty_gtw.Bridge.Gateway.{
  Gateway, is_full, admit, release, arrive, leave, Reached, start, step,
}

-- The counter counts the live sessions, and they are within the limit.
pub record IsCounted (cfg : Config) (g : Gateway) : Type 0 where
  pub counts : g.sessions ≡ length g.live
  pub bounded :
      (g.sessions ≡ 0) ⊎ ((is_pos cfg.max_sessions ≡ true) × (g.sessions ≤ cfg.max_sessions))

admit-IsCounted :
    (cfg : Config) (g : Gateway) (c : ℕ) → IsCounted cfg g → IsCounted cfg (admit cfg g c)
unfolding admit
admit-IsCounted cfg g c w = elim (Bool-cases (is_full cfg g.sessions)) [
  | inl e ↦ simp e (record { counts = w.counts; bounded = w.bounded })
  | inr e ↦
      simp e
        (record { counts = omega (arith, w.counts); bounded = inr (ground arith, ground arith) })
]

leave-IsCounted :
    (cfg : Config) (g : Gateway) (c : ℕ) (front back : List ℕ)
    → IsCounted cfg g
    → g.live ≡ front ++ c ∷ back
    → IsCounted cfg (release g (front ++ back))
unfolding release
leave-IsCounted cfg g c front back w e =
    let n : length g.live ≡ length front + suc (length back) =
      ap length e ∙ length-append front (c ∷ back) in
    record {
      counts = omega (arith, w.counts, n, length-append front back);
      bounded = elim w.bounded [ inl z ↦ inl (omega arith) | inr (p, l) ↦ inr (p, omega arith) ];
    }

-- Whatever clients come and go, and in whatever order, the counter is the number of the sessions
-- that are live, and it is never past the limit, which a limit that is not positive makes 0.
pub Reached-IsCounted : (cfg : Config) (g : Gateway) → Reached cfg g → IsCounted cfg g
Reached-IsCounted cfg _ start = record { counts = refl; bounded = inl refl }
Reached-IsCounted cfg _ (step {g} r (arrive _ c)) =
    admit-IsCounted cfg g c (Reached-IsCounted cfg g r)
Reached-IsCounted cfg _ (step {g} r (leave _ c front back e)) =
    leave-IsCounted cfg g c front back (Reached-IsCounted cfg g r) e

-- In a gateway that was reached, a client is turned away exactly when the live sessions are as many
-- as the limit, or the limit is not positive; else it is live.
pub admit-Reached :
    (cfg : Config) (g : Gateway) (c : ℕ)
    → Reached cfg g
    → (((is_pos cfg.max_sessions ≡ false) ⊎ (length g.live ≡ cfg.max_sessions))
        × (admit cfg g c ≡ record g { rejected = c ∷ g.rejected }))
      ⊎ ((is_pos cfg.max_sessions ≡ true)
          × (length g.live < cfg.max_sessions)
          × (admit cfg g c ≡ record g { sessions = g.sessions + 1; live = c ∷ g.live }))
unfolding admit
admit-Reached cfg g c r =
    let w = Reached-IsCounted cfg g r in
    elim (Bool-cases (is_full cfg g.sessions)) [
      | inl e ↦ inl (ground (arith, w.counts, w.bounded), simp e)
      | inr e ↦ inr (ground (arith, w.counts), ground (arith, w.counts), simp e)
    ]
