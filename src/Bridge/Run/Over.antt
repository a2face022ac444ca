-- ===== src/Bridge/Run/Over.antt =====
-- gateway-go/bridge.go: the end of `runBridge`.
use imsai_8080_esp_tty_gtw.Prelude.{
  ℕ, Bool, true, false, Bytes, List, Option, none, some, ◌≡◌, refl, ◌⊎◌, inl, inr, map, if_both,
}
use imsai_8080_esp_tty_gtw.Bridge.Run.Causes.{
  IsDeviceCause, IsClientCause, IsFirst, IsTracked, run_events-IsTracked,
}
use imsai_8080_esp_tty_gtw.Bridge.Run.First.{run_events-IsSettled}
use imsai_8080_esp_tty_gtw.Bridge.Run.Ends.{
  device_fails, client_reads, late-device_end, late-client_end,
}
use imsai_8080_esp_tty_gtw.Terminal.Input.{TerminalInput}
use imsai_8080_esp_tty_gtw.Bridge.Session.{Panel, Session}
use imsai_8080_esp_tty_gtw.Bridge.Console.{end_bridge}
use imsai_8080_esp_tty_gtw.Bridge.Run.{
  Event, BridgeRun, Bridged, running, returned, late, run_events, run_late, both_results,
  start_bridge, run_bridge,
}

module _ {P : Type 0} (panel : Panel P) (accepts : ℕ → Bool) (writable : Bytes → Bool) where
  -- Both pumps have returned, each with one of its causes, the reason is the cause of one of them,
  -- and the panel is closed.
  pub record IsOver (r : BridgeRun P) (reason : Bytes) : Type 0 where
    pub device_cause : Bytes
    pub client_cause : Bytes
    pub device_over : r.device_end ≡ some device_cause
    pub client_over : r.client_end ≡ some client_cause
    pub known : IsDeviceCause (some device_cause) × IsClientCause (some client_cause)
    pub from_pump : (device_cause ≡ reason) ⊎ (client_cause ≡ reason)
    pub shut : r.session.tui ≡ false

  -- With no reason the bridge runs on, with both pumps; with one it has returned it.
  abbrev pub IsOverBy : Option Bytes → Bridged P → Type 0
  IsOverBy none (running r) = (r.device_end ≡ none) × (r.client_end ≡ none)
  IsOverBy none (returned r why) = ⊥
  IsOverBy (some reason) (running r) = ⊥
  IsOverBy (some reason) (returned r why) = (why ≡ reason) × IsOver r reason

  end_bridge_shut : (s : Session P) → (end_bridge writable s).tui ≡ false
  unfolding end_bridge
  end_bridge_shut s = if_both (λ (s' : Session P). s'.tui ≡ false) _ refl refl

  waiting-IsOverBy :
      (r : BridgeRun P) (d c o : Option Bytes)
      → r.device_end ≡ d
      → r.client_end ≡ c
      → d ≡ none
      → c ≡ none
      → IsOverBy none (both_results panel accepts writable r d c o)
  waiting-IsOverBy r none none o e f d_none c_none = (e, f)
  waiting-IsOverBy r (some d) c o e f d_none c_none = cc
  waiting-IsOverBy r none (some c) o e f d_none c_none = cc

  first_cause :
      (device client reason : Bytes)
      → IsFirst (some reason) (some device) (some client)
      → (device ≡ reason) ⊎ (client ≡ reason)
  first_cause device client reason (inl e) = inl cc
  first_cause device client reason (inr e) = inr cc

  ended-IsOverBy :
      (r : BridgeRun P) (d c o : Option Bytes) (device client reason : Bytes)
      → (r.device_end ≡ d) × (r.client_end ≡ c) × (r.reason ≡ o)
      → (d ≡ some device) × (c ≡ some client) × (o ≡ some reason)
      → IsTracked panel accepts writable r
      → IsOverBy (some reason) (both_results panel accepts writable r d c o)
  ended-IsOverBy r none c o device client reason same (d, k, w) tracked = cc
  ended-IsOverBy r (some x) none o device client reason same (d, k, w) tracked = cc
  ended-IsOverBy r (some x) (some y) none device client reason same (d, k, w) tracked = cc
  ended-IsOverBy r (some x) (some y) (some z) device client reason (e, f, g) (d, k, w) tracked =
      let (known_device, known_client, first) = rw (e, f, g, w) at tracked in
      (
        cc,
        record {
          device_cause = x;
          client_cause = y;
          device_over = e;
          client_over = f;
          known = (known_device, known_client);
          from_pump = first_cause x y reason first;
          shut = end_bridge_shut r.session;
        },
      )

  late-IsOverBy :
      (r : BridgeRun P) (after : List Event) (o : Option Bytes)
      → r.reason ≡ o
      → IsTracked panel accepts writable r
      → device_fails after ≡ true
      → client_reads after ≡ true
      → (let r' = run_late panel accepts writable r after o in
          IsOverBy o (both_results panel accepts writable r' r'.device_end r'.client_end r'.reason))
  late-IsOverBy r after none e k fails reads =
      let (d, c, (d_none, c_none)) = rw e at k in
      waiting-IsOverBy r r.device_end r.client_end r.reason refl refl d_none c_none
  late-IsOverBy r after (some reason) e k fails reads =
      let events = map late after in
      let r' = run_events panel accepts writable r events in
      let (device, d) = late-device_end panel accepts writable r after fails in
      let (client, c) = late-client_end panel accepts writable r after reads in
      let settled = run_events-IsSettled panel accepts writable reason r events e in
      ended-IsOverBy r' r'.device_end r'.client_end r'.reason device client reason
        (refl, refl, refl) (d, c, settled) (run_events-IsTracked panel accepts writable r events k)

  -- As long as, behind the close of the WebSocket, a read of it gives an error and the client's pump
  -- reads again, so that neither is blocked in a write for ever: in whatever order the device and
  -- the client go on, whatever they send, and whichever writes fail, the bridge runs on with both
  -- pumps where none has ended before; where one has ended, the bridge has returned: both pumps have,
  -- each with one of its own causes, the reason is what the channel was sent first and the cause of
  -- one of them, and the panel is closed.
  pub run_bridge-IsOver :
      (t : TerminalInput) (s : Session P) (capture : Option Bytes) (before after : List Event)
      → device_fails after ≡ true
      → client_reads after ≡ true
      → IsOverBy
          (run_events panel accepts writable
            (start_bridge panel accepts writable t s capture)
            before).reason
          (run_bridge panel accepts writable t s capture before after)
  unfolding run_bridge
  run_bridge-IsOver t s capture before after fails reads =
      let begun = start_bridge panel accepts writable t s capture in
      let r = run_events panel accepts writable begun before in
      late-IsOverBy r after r.reason refl
        (run_events-IsTracked panel accepts writable begun before (tt, tt, (refl, refl))) fails
        reads
