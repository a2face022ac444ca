-- ===== src/Terminal/Promises.antt =====
-- gateway-go/terminal.go: the option tables against what the client has been told.
use imsai_8080_esp_tty_gtw.Prelude.{
  not, ◌&&◌, if◌then◌else◌, ℕ, Bool, true, false, ◌||◌, Bytes, [], ◌∷◌, ◌++◌, ◌≡◌, refl, arith,
  ◌==◌, fun_ext,
}
use imsai_8080_esp_tty_gtw.Terminal.Input.{
  st_iac, State, st_data, st_iac, st_opt, st_sb_iac, TerminalInput, t_will, t_wont, t_do, t_dont,
  opt_echo, opt_sga, opt_naws, set_opt,
}
use imsai_8080_esp_tty_gtw.Terminal.Negotiate.{reply, announce, negotiate}
use imsai_8080_esp_tty_gtw.Terminal.Feed.{handle_subneg, feed_telnet, feed_all}

-- The modes that a reader of the reply stream takes to be on: `on` and `off` are the two verbs, and
-- the stream is one of commands of three bytes.
abbrev pub told : ℕ → ℕ → (ℕ → Bool) → Bytes → ℕ → Bool
told on off m (iac ∷ verb ∷ opt ∷ rest) =
    told on off
      (if verb == on then set_opt m opt true else if verb == off then set_opt m opt false else m)
      rest
told on off m _ = m

-- Only echo and suppress-go-ahead are ever on at this side, only suppress-go-ahead and the window
-- size at the client's.
pub record OnlyOffered (t : TerminalInput) : Type 0 where
  pub will_offered : (x : ℕ) → (x == opt_echo || x == opt_sga) ≡ false → t.will_map x ≡ false
  pub do_offered : (x : ℕ) → (x == opt_sga || x == opt_naws) ≡ false → t.do_map x ≡ false

abbrev Agrees : TerminalInput → TerminalInput → Bytes → Type 0
Agrees t u r =
    ((x : ℕ) → u.will_map x ≡ told t_will t_wont t.will_map r x)
    × ((x : ℕ) → u.do_map x ≡ told t_do t_dont t.do_map r x)

handle_subneg_maps :
    (t : TerminalInput) (sb : Bytes)
    → ((handle_subneg t sb).will_map ≡ t.will_map) × ((handle_subneg t sb).do_map ≡ t.do_map)
unfolding handle_subneg
handle_subneg_maps t [] = ground arith
handle_subneg_maps t (a ∷ []) = ground arith
handle_subneg_maps t (a ∷ b ∷ []) = ground arith
handle_subneg_maps t (a ∷ b ∷ c ∷ []) = ground arith
handle_subneg_maps t (a ∷ b ∷ c ∷ d ∷ []) = ground arith
handle_subneg_maps t (a ∷ b ∷ c ∷ d ∷ e ∷ r) = ground arith

negotiate-OnlyOffered :
    (t : TerminalInput) (cmd opt : ℕ) → OnlyOffered t → OnlyOffered (negotiate t cmd opt).0
unfolding negotiate
negotiate-OnlyOffered t cmd opt h = record {
  will_offered = λ x e. ground (arith, h.will_offered x);
  do_offered = λ x e. ground (arith, h.do_offered x);
}

feed_telnet-OnlyOffered :
    (t : TerminalInput) (b : ℕ) → OnlyOffered t → OnlyOffered (feed_telnet t b).term
unfolding feed_telnet announce
feed_telnet-OnlyOffered t b h =
    let n = negotiate-OnlyOffered t t.cmd b h in
    record {
      will_offered =
          λ x e. ground (arith, h.will_offered x, n.will_offered x, handle_subneg_maps t t.sb);
      do_offered = λ x e. ground (arith, h.do_offered x, n.do_offered x, handle_subneg_maps t t.sb);
    }

negotiate-Agrees :
    (t : TerminalInput) (cmd opt : ℕ)
    → OnlyOffered t
    → Agrees t (negotiate t cmd opt).0 (negotiate t cmd opt).1
unfolding negotiate
negotiate-Agrees t cmd opt h =
    (λ x. ground (arith, h.will_offered x), λ x. ground (arith, h.do_offered x))

announce-Agrees : (t : TerminalInput) → Agrees t (announce t).0 (announce t).1
unfolding announce
announce-Agrees t = (λ x. ground arith, λ x. ground arith)

feed_step-Agrees :
    (s : State) (t : TerminalInput) (b : ℕ)
    → t.state ≡ s
    → OnlyOffered t
    → Agrees t (feed_telnet t b).term (feed_telnet t b).reply
unfolding feed_telnet
feed_step-Agrees st_data t b e h =
    let n = announce-Agrees (record t { state = st_iac }) in
    rw e (λ x. ground (arith, n.0 x), λ x. ground (arith, n.1 x))
feed_step-Agrees st_opt t b e h = simp e (negotiate-Agrees t t.cmd b h)
feed_step-Agrees st_sb_iac t b e h =
    simp e (
      λ x. ground (arith, handle_subneg_maps t t.sb),
      λ x. ground (arith, handle_subneg_maps t t.sb),
    )
feed_step-Agrees _ t b e h = simp e (λ x. ground arith, λ x. ground arith)

-- A reply is a number of whole commands, so what it says is read before what follows it.
abbrev IsWhole : Bytes → Type 0
IsWhole r =
    (on off : ℕ) (m : ℕ → Bool) (rest : Bytes)
    → told on off m (r ++ rest) ≡ told on off (told on off m r) rest

negotiate-IsWhole : (t : TerminalInput) (cmd opt : ℕ) → IsWhole (negotiate t cmd opt).1
unfolding negotiate
negotiate-IsWhole t cmd opt on off m rest = ground arith

announce-IsWhole : (t : TerminalInput) → IsWhole (announce t).1
unfolding announce
announce-IsWhole t on off m rest = ground arith

feed_step-IsWhole :
    (s : State) (t : TerminalInput) (b : ℕ) → t.state ≡ s → IsWhole (feed_telnet t b).reply
unfolding feed_telnet
feed_step-IsWhole st_data t b e on off m rest =
    simp e (ground (arith, announce-IsWhole (record t { state = st_iac }) on off m rest))
feed_step-IsWhole st_opt t b e on off m rest = simp e (negotiate-IsWhole t t.cmd b on off m rest)
feed_step-IsWhole _ t b e on off m rest = simp e (ground arith)

feed_all-Agrees :
    (t : TerminalInput) (bs : Bytes)
    → OnlyOffered t
    → Agrees t (feed_all t bs).term (feed_all t bs).reply
unfolding feed_all
feed_all-Agrees t [] h = (λ x. refl, λ x. refl)
feed_all-Agrees t (b ∷ bs) h =
    let f = feed_telnet t b in
    let g = feed_all f.term bs in
    let w = feed_step-IsWhole t.state t b refl in
    let a = feed_step-Agrees t.state t b refl h in
    let ih = feed_all-Agrees f.term bs (feed_telnet-OnlyOffered t b h) in
    (
      λ x. rw (w t_will t_wont t.will_map g.reply, ← fun_ext a.0) (ih.0 x),
      λ x. rw (w t_do t_dont t.do_map g.reply, ← fun_ext a.1) (ih.1 x),
    )

feed_all-OnlyOffered :
    (t : TerminalInput) (bs : Bytes) → OnlyOffered t → OnlyOffered (feed_all t bs).term
unfolding feed_all
feed_all-OnlyOffered t [] h = h
feed_all-OnlyOffered t (b ∷ bs) h =
    feed_all-OnlyOffered (feed_telnet t b).term bs (feed_telnet-OnlyOffered t b h)

-- For a parser whose tables hold only options that the gateway offers: after any input they still
-- do, and the two tables are what a reader of all the replies sent takes to be on at either side,
-- starting from the tables as they were. So every change of a table has been told to the client,
-- and nothing was told that is not in the tables.
pub feed_all-told :
    (t : TerminalInput) (bs : Bytes)
    → OnlyOffered t
    → OnlyOffered (feed_all t bs).term
      × ((x : ℕ)
          → (feed_all t bs).term.will_map x ≡ told t_will t_wont t.will_map (feed_all t bs).reply x)
      × ((x : ℕ)
          → (feed_all t bs).term.do_map x ≡ told t_do t_dont t.do_map (feed_all t bs).reply x)
feed_all-told t bs h = let a = feed_all-Agrees t bs h in (feed_all-OnlyOffered t bs h, a.0, a.1)

-- A request that was answered before is not answered again, so two ends that answer each other
-- stop: the same command with the same option leaves the tables alone the second time, and is
-- answered only where it asks for an option that the gateway refuses, by that refusal.
pub negotiate-negotiate :
    (t : TerminalInput) (cmd opt : ℕ)
    → OnlyOffered t
    → negotiate (negotiate t cmd opt).0 cmd opt ≡ (
      (negotiate t cmd opt).0,
      if cmd == t_do && not (opt == opt_echo || opt == opt_sga)
          then reply t_wont opt
          else if cmd == t_will && not (opt == opt_sga || opt == opt_naws)
          then reply t_dont opt
          else [],
    )
unfolding negotiate
negotiate-negotiate t cmd opt h = ground (arith, h.will_offered opt, h.do_offered opt)
