-- ===== src/Bridge/Delivery.antt =====
-- gateway-go/bridge.go: the two pumps of a session, one step at a time: a frame from the device, or a
-- read from the client, in any order.
use imsai_8080_esp_tty_gtw.Prelude.{
  ℕ, ◌≤◌, Bool, true, false, Bytes, [], ◌++◌, Option, some, ◌≡◌, refl, sym, ap, subst, ◌∙◌, ◌⊎◌,
  inl, inr, length, le→ltb, append_assoc, append-nil, if◌then◌else◌, Bool-cases,
}
use imsai_8080_esp_tty_gtw.Tui.Ansi.{ansi_show_cur, ansi_wrap_on, ansi_leave_alt}
use imsai_8080_esp_tty_gtw.Bridge.Ws.{Ws}
use imsai_8080_esp_tty_gtw.Bridge.Session.{Panel, Session}
use imsai_8080_esp_tty_gtw.Bridge.Console.{
  tui_out_buf_max, keep_last, device_frame, enter_tui, exit_tui,
}
use imsai_8080_esp_tty_gtw.Bridge.Input.{feed_panel, handle_input}
use imsai_8080_esp_tty_gtw.Bridge.Invariant.{Ends, handle_input_keeps}

-- What is written to a client has the device's bytes in it, in order, and the gateway's own.
pub data IsMix : Bytes → Bytes → Type 0 where
  mix_none : IsMix [] []
  mix_own : {dev written : Bytes} (x : Bytes) → IsMix dev written → IsMix dev (written ++ x)
  mix_device :
      {dev written : Bytes} (x : Bytes) → IsMix dev written → IsMix (dev ++ x) (written ++ x)

keep_last_fits : (max : ℕ) (b : Bytes) → length b ≤ max → keep_last max b ≡ b
keep_last_fits max b fits = rw (le→ltb max (length b) fits) refl

module _ {P : Type 0} where
  -- All that the device has sent, but for what is buffered, is with the client, and nothing is
  -- buffered while the panel is closed.
  pub record IsDelivered (all : Bytes) (s : Session P) : Type 0 where
    pub dev : Bytes
    pub mix : IsMix dev s.to_client
    pub whole : dev ++ s.out_buf ≡ all
    pub buffered : (s.tui ≡ true) ⊎ (s.out_buf ≡ [])

  pub empty_if_shut :
      (all : Bytes) (s : Session P) → IsDelivered all s → s.tui ≡ false → s.out_buf ≡ []
  empty_if_shut all s d shut = elim d.buffered [ inl shown ↦ absurd cc | inr empty ↦ empty ]

  pub all_if_shut :
      (all : Bytes) (s : Session P) (d : IsDelivered all s) → s.tui ≡ false → d.dev ≡ all
  all_if_shut all s d shut =
      sym (append-nil d.dev)
      ∙ sym (ap (λ (o : Bytes). d.dev ++ o) (empty_if_shut all s d shut))
      ∙ d.whole

  pub device_frame-IsDelivered :
      (all : Bytes) (s : Session P) (f : Bytes)
      → length (s.out_buf ++ f) ≤ tui_out_buf_max
      → IsDelivered all s
      → IsDelivered (all ++ f) (device_frame s f)
  unfolding device_frame
  device_frame-IsDelivered all s f fits d = elim (Bool-cases s.tui) [
    | inl shown ↦
        rw (shown, device_frame)
          (record {
            dev = d.dev;
            mix = d.mix;
            whole =
                ap (λ (o : Bytes). d.dev ++ o)
                  (keep_last_fits tui_out_buf_max (s.out_buf ++ f) fits)
                ∙ sym (append_assoc d.dev s.out_buf f)
                ∙ ap (λ (a : Bytes). a ++ f) d.whole;
            buffered = inl refl;
          })
    | inr shut ↦
        rw (shut, device_frame)
          (record {
            dev = d.dev ++ f;
            mix = mix_device f d.mix;
            whole =
                ap (λ (o : Bytes). (d.dev ++ f) ++ o) (empty_if_shut all s d shut)
                ∙ append-nil (d.dev ++ f)
                ∙ ap (λ (a : Bytes). a ++ f) (all_if_shut all s d shut);
            buffered = inr (empty_if_shut all s d shut);
          })
  ]

  -- The escape sequences are the gateway's, and what was buffered follows them.
  exit_tui-IsDelivered :
      (all : Bytes) (s : Session P) → IsDelivered all s → IsDelivered all (exit_tui s)
  unfolding exit_tui
  exit_tui-IsDelivered all s d =
      let restored = ansi_show_cur ++ ansi_wrap_on ++ ansi_leave_alt in
      record {
        dev = d.dev ++ s.out_buf;
        mix = mix_device s.out_buf (mix_own restored d.mix);
        whole = append-nil (d.dev ++ s.out_buf) ∙ d.whole;
        buffered = inr refl;
      }

  module _ (panel : Panel P) (accepts : ℕ → Bool) where
    enter_tui-IsDelivered :
        (all : Bytes) (s : Session P) → IsDelivered all s → IsDelivered all (enter_tui panel s)
    unfolding enter_tui
    enter_tui-IsDelivered all s d = record {
      dev = d.dev;
      mix = mix_own _ d.mix;
      whole = d.whole;
      buffered = inl refl;
    }

    feed_panel-IsDelivered :
        (all : Bytes) (s : Session P) (bytes : Bytes)
        → s.tui ≡ true
        → IsDelivered all s
        → IsDelivered all (feed_panel panel accepts s bytes)
    unfolding feed_panel
    feed_panel-IsDelivered all s bytes shown d =
        let (p, drawn, exited) = panel.feed s.panel bytes in
        let s' = record s { panel = p; to_client = s.to_client ++ drawn } in
        let drawn_on : IsDelivered all s' = record {
          dev = d.dev;
          mix = mix_own drawn d.mix;
          whole = d.whole;
          buffered = inl shown;
        } in
        if_exited exited s' drawn_on
      where
        if_exited :
            (exited : Bool) (s' : Session P)
            → IsDelivered all s'
            → IsDelivered all (if exited then exit_tui s' else s')
        if_exited true s' d' = exit_tui-IsDelivered all s' d'
        if_exited false s' d' = d'

    pub handle_input-IsDelivered :
        (all : Bytes) (turns : ℕ) (s s' : Session P) (bytes cause : Bytes)
        → handle_input panel accepts turns s bytes ≡ some (s', cause)
        → IsDelivered all s
        → IsDelivered all s'
    handle_input-IsDelivered all turns s s' bytes cause e d =
        subst
          (λ (x : Option (Session P × Bytes)).
            Ends panel accepts (IsDelivered all) moved opened fed x)
          e (handle_input_keeps panel accepts (IsDelivered all) moved opened fed turns s bytes d)
      where
        moved :
            (s : Session P) (ws : Ws) (n : ℕ)
            → IsDelivered all s
            → IsDelivered all (record s { ws = ws; hk_match = n })
        moved s ws n d = record { dev = d.dev; mix = d.mix; whole = d.whole; buffered = d.buffered }

        opened :
            (s : Session P)
            → s.tui ≡ false
            → IsDelivered all s
            → IsDelivered all (enter_tui panel s)
        opened s shut d = enter_tui-IsDelivered all s d

        fed :
            (s : Session P) (bytes : Bytes)
            → s.tui ≡ true
            → IsDelivered all s
            → IsDelivered all (feed_panel panel accepts s bytes)
        fed = feed_panel-IsDelivered all

    -- What can have happened in a session that starts with nothing buffered, and what the device has
    -- sent by then, behind the filter.
    pub data Happened : Bytes → Session P → Type 0 where
      begun : (s : Session P) → s.out_buf ≡ [] → Happened [] s
      framed :
          {all : Bytes} {s : Session P} (f : Bytes)
          → Happened all s
          → length (s.out_buf ++ f) ≤ tui_out_buf_max
          → Happened (all ++ f) (device_frame s f)
      typed :
          {all : Bytes} {s s' : Session P} {cause : Bytes} (turns : ℕ) (bytes : Bytes)
          → Happened all s
          → handle_input panel accepts turns s bytes ≡ some (s', cause)
          → Happened all s'

    -- However the frames of the device and the reads of the client follow one another, whatever the
    -- panel does, and as long as the buffer of the open panel does not overflow: all that the device
    -- has sent, as the filter leaves it, is with the client, in order, among the bytes of the gateway,
    -- but for what is buffered while the panel is open; where it is closed nothing is buffered.
    pub Happened-IsDelivered : (all : Bytes) (s : Session P) → Happened all s → IsDelivered all s
    Happened-IsDelivered all s (begun s' empty) = record {
      dev = [];
      mix = mix_own s.to_client mix_none;
      whole = empty;
      buffered = inr empty;
    }
    Happened-IsDelivered all s (framed f before fits) =
        device_frame-IsDelivered _ _ f fits (Happened-IsDelivered _ _ before)
    Happened-IsDelivered all s (typed turns bytes before e) =
        handle_input-IsDelivered all turns _ s bytes _ e (Happened-IsDelivered all _ before)
