-- ===== src/Bridge/Locks.antt =====
-- gateway-go/bridge.go, gateway-go/tui.go: the two pumps, where the lock of the session is released:
-- `pumpWSToTCP` tests the flag of the panel under the lock and writes behind it, so that turns of the
-- client can come between; `exitTUI` holds the lock while it writes what was buffered.
use imsai_8080_esp_tty_gtw.Prelude.{
  ℕ, ◌≤◌, Bool, true, false, Bytes, [], ◌++◌, Option, none, some, ◌≡◌, refl, sym, ap, subst, ◌∙◌,
  inr, length, append-nil, if_both,
}
use imsai_8080_esp_tty_gtw.Bridge.Session.{Panel, Session}
use imsai_8080_esp_tty_gtw.Bridge.Console.{tui_out_buf_max, keep_last, enter_tui, exit_tui}
use imsai_8080_esp_tty_gtw.Bridge.Input.{feed_panel, handle_input}
use imsai_8080_esp_tty_gtw.Bridge.Invariant.{Ends, handle_input_keeps}
use imsai_8080_esp_tty_gtw.Bridge.Buffer.{open_frame}
use imsai_8080_esp_tty_gtw.Bridge.Delivery.{
  mix_none, mix_own, mix_device, IsDelivered, empty_if_shut, device_frame-IsDelivered,
  handle_input-IsDelivered,
}

module _ {P : Type 0} where
  -- Under the lock, by the flag of the panel: a frame is buffered, or is to be written.
  abbrev pub test_flag : Session P → Bytes → Bool → Session P × Option Bytes
  test_flag s f true = (record s { out_buf = keep_last tui_out_buf_max (s.out_buf ++ f) }, none)
  test_flag s f false = (s, some f)

  unfoldable pub test_frame : Session P → Bytes → Session P × Option Bytes
  test_frame s f = test_flag s f s.tui

  -- Behind the lock.
  unfoldable pub write_frame : Session P → Bytes → Session P
  write_frame s f = record s { to_client = s.to_client ++ f }

  module _ (panel : Panel P) (accepts : ℕ → Bool) where
    -- What can have happened in a session that starts with nothing buffered: what the device has sent
    -- by then, behind the filter, and the frame that is to be written.
    pub data Interleaved : Bytes → Session P → Option Bytes → Type 0 where
      begun : (s : Session P) → s.out_buf ≡ [] → Interleaved [] s none
      tested :
          {all : Bytes} {s : Session P} (f : Bytes)
          → Interleaved all s none
          → length (s.out_buf ++ f) ≤ tui_out_buf_max
          → Interleaved (all ++ f) (test_frame s f).0 (test_frame s f).1
      written :
          {all : Bytes} {s : Session P} (f : Bytes)
          → Interleaved all s (some f)
          → Interleaved all (write_frame s f) none
      typed :
          {all : Bytes} {s s' : Session P} {waiting : Option Bytes} {cause : Bytes} (turns : ℕ)
          (bytes : Bytes)
          → Interleaved all s waiting
          → handle_input panel accepts turns s bytes ≡ some (s', cause)
          → Interleaved all s' waiting

    abbrev IsEmpty : Session P → Type 0
    IsEmpty s = s.out_buf ≡ []

    handle_input-IsEmpty :
        (turns : ℕ) (s s' : Session P) (bytes cause : Bytes)
        → handle_input panel accepts turns s bytes ≡ some (s', cause)
        → s.out_buf ≡ []
        → s'.out_buf ≡ []
    unfolding enter_tui feed_panel exit_tui
    handle_input-IsEmpty turns s s' bytes cause e empty =
        subst
          (λ (x : Option (Session P × Bytes)).
            Ends panel accepts IsEmpty (λ s ws n r. r) (λ s shut r. r) fed x)
          e
          (handle_input_keeps panel accepts IsEmpty (λ s ws n r. r) (λ s shut r. r) fed turns s
            bytes empty)
      where
        fed :
            (s : Session P) (bytes : Bytes)
            → s.tui ≡ true
            → s.out_buf ≡ []
            → (feed_panel panel accepts s bytes).out_buf ≡ []
        fed s bytes shown r = if_both IsEmpty (panel.feed s.panel bytes).2 refl r

    -- A waiting frame is the last of what the device has sent, all before it is with the client and
    -- nothing is buffered.
    abbrev pub IsDeliveredBut : Bytes → Session P → Option Bytes → Type 0
    IsDeliveredBut all s none = IsDelivered all s
    IsDeliveredBut all s (some f) =
        (before : Bytes) × (all ≡ before ++ f) × IsDelivered before s × (s.out_buf ≡ [])

    test_flag-IsDeliveredBut :
        (all : Bytes) (s : Session P) (f : Bytes) (shown : Bool)
        → s.tui ≡ shown
        → length (s.out_buf ++ f) ≤ tui_out_buf_max
        → IsDelivered all s
        → IsDeliveredBut (all ++ f) (test_flag s f shown).0 (test_flag s f shown).1
    test_flag-IsDeliveredBut all s f true e fits d =
        subst (IsDelivered (all ++ f)) (open_frame s f e) (device_frame-IsDelivered all s f fits d)
    test_flag-IsDeliveredBut all s f false e fits d = (all, refl, d, empty_if_shut all s d e)

    write_frame-IsDelivered :
        (all : Bytes) (s : Session P) (f : Bytes)
        → IsDeliveredBut all s (some f)
        → IsDelivered all (write_frame s f)
    unfolding write_frame
    write_frame-IsDelivered all s f (before, e, d, empty) =
        let dev_same : d.dev ≡ before =
          sym (append-nil d.dev) ∙ sym (ap (λ (o : Bytes). d.dev ++ o) empty) ∙ d.whole in
        record {
          dev = d.dev ++ f;
          mix = mix_device f d.mix;
          whole =
              ap (λ (o : Bytes). (d.dev ++ f) ++ o) empty
              ∙ append-nil (d.dev ++ f)
              ∙ ap (λ (o : Bytes). o ++ f) dev_same
              ∙ sym e;
          buffered = inr empty;
        }

    typed-IsDeliveredBut :
        (all : Bytes) (turns : ℕ) (s s' : Session P) (waiting : Option Bytes) (bytes cause : Bytes)
        → handle_input panel accepts turns s bytes ≡ some (s', cause)
        → IsDeliveredBut all s waiting
        → IsDeliveredBut all s' waiting
    typed-IsDeliveredBut all turns s s' none bytes cause e d =
        handle_input-IsDelivered panel accepts all turns s s' bytes cause e d
    typed-IsDeliveredBut all turns s s' (some f) bytes cause e (before, same, d, empty) = (
      before,
      same,
      handle_input-IsDelivered panel accepts before turns s s' bytes cause e d,
      handle_input-IsEmpty turns s s' bytes cause e empty,
    )

    -- Also where the client's turns come between the test of the panel's flag and the write of a
    -- frame, which may open and close the panel, and as long as the buffer of the open panel does not
    -- overflow: all that the device has sent is with the client, in order, among the bytes of the
    -- gateway, but for what is buffered while the panel is open, or for one frame that waits to be
    -- written, behind which nothing was sent or buffered.
    pub Interleaved-IsDeliveredBut :
        (all : Bytes) (s : Session P) (waiting : Option Bytes)
        → Interleaved all s waiting
        → IsDeliveredBut all s waiting
    unfolding test_frame
    Interleaved-IsDeliveredBut all s waiting (begun s' empty) = record {
      dev = [];
      mix = mix_own s.to_client mix_none;
      whole = empty;
      buffered = inr empty;
    }
    Interleaved-IsDeliveredBut all s waiting (tested f before fits) =
        test_flag-IsDeliveredBut _ _ f _ refl fits (Interleaved-IsDeliveredBut _ _ none before)
    Interleaved-IsDeliveredBut all s waiting (written f before) =
        write_frame-IsDelivered _ _ f (Interleaved-IsDeliveredBut _ _ (some f) before)
    Interleaved-IsDeliveredBut all s waiting (typed turns bytes before e) =
        typed-IsDeliveredBut all turns _ s waiting bytes _ e
          (Interleaved-IsDeliveredBut all _ waiting before)
