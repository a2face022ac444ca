-- ===== src/Bridge/Buffer.antt =====
-- gateway-go/bridge.go, gateway-go/tui.go: the device's output while the panel is closed, while it
-- is open, and when it is closed again.
use imsai_8080_esp_tty_gtw.Prelude.{
  Bool, le→ltb, ◌-◌, ◌≤◌, true, false, Bytes, List, [], ◌∷◌, ◌++◌, Option, none, some, ◌≡◌, refl,
  sym, ap, ◌∙◌, arith, length, drop, ltb, append_assoc, append-nil, Bool-cases, inl, inr,
  length-append, length-drop, ℕ, zero, suc, ◌+◌,
}
use imsai_8080_esp_tty_gtw.Tui.Ansi.{ansi_show_cur, ansi_wrap_on, ansi_leave_alt}
use imsai_8080_esp_tty_gtw.Output.Filter.{OutProc, process}
use imsai_8080_esp_tty_gtw.Output.Streaming.{process_frames_append}
use imsai_8080_esp_tty_gtw.Bridge.Session.{Panel, Session}
use imsai_8080_esp_tty_gtw.Bridge.Console.{
  enter_tui, tui_out_buf_max, keep_last, device_frame, exit_tui, end_bridge,
}
use imsai_8080_esp_tty_gtw.Bridge.Pump.{filter_of, filtered, pump, pump_ws_to_tcp}

abbrev pub concat_all : List Bytes → Bytes
concat_all [] = []
concat_all (x ∷ xs) = x ++ concat_all xs

pub filtered-append :
    (f : Option OutProc) (xs ys : Bytes)
    → filtered f (xs ++ ys)
      ≡ (let (f', out) = filtered f xs in let (f'', rest) = filtered f' ys in (f'', out ++ rest))
unfolding filtered
filtered-append none xs ys = refl
filtered-append (some p) xs ys = rw (process_frames_append p xs ys) refl

pub filtered-nil : (f : Option OutProc) → filtered f [] ≡ (f, [])
unfolding filtered process
filtered-nil none = refl
filtered-nil (some p) = refl

drop_nil : (i : ℕ) → drop {A = ℕ} i [] ≡ []
drop_nil zero = refl
drop_nil (suc i) = refl

drop-drop : (i j : ℕ) (xs : Bytes) → drop i (drop j xs) ≡ drop (j + i) xs
drop-drop i zero xs = ground arith
drop-drop zero (suc j) [] = ground arith
drop-drop (suc i) (suc j) [] = sym (drop_nil (suc j + suc i))
drop-drop i (suc j) (x ∷ xs) =
    let e : suc (j + i) ≡ suc j + i = omega arith in drop-drop i j xs ∙ ap (λ n. drop n (x ∷ xs)) e

drop_append : (i : ℕ) (xs ys : Bytes) → i ≤ length xs → drop i xs ++ ys ≡ drop i (xs ++ ys)
drop_append zero xs ys h = refl
drop_append (suc i) [] ys h = absurd (omega arith)
drop_append (suc i) (x ∷ xs) ys h = drop_append i xs ys (omega arith)

keep_last-drop : (n : ℕ) (xs : Bytes) → keep_last n xs ≡ drop (length xs - n) xs
keep_last-drop n xs = elim (Bool-cases (ltb n (length xs))) [
  | inl e ↦ simp e
  | inr e ↦ let none_over : length xs - n ≡ 0 = ground arith in simp (e, none_over)
]

keep_last_short : (xs : Bytes) → length xs ≤ tui_out_buf_max → keep_last tui_out_buf_max xs ≡ xs
keep_last_short xs h = rw (le→ltb tui_out_buf_max (length xs) h) refl

length-keep_last : (n : ℕ) (xs : Bytes) → length (keep_last n xs) ≤ n
length-keep_last n xs = rw (keep_last-drop n xs, length-drop (length xs - n) xs) (omega arith)

keep_last-keep_last :
    (n : ℕ) (xs ys : Bytes) → keep_last n (keep_last n xs ++ ys) ≡ keep_last n (xs ++ ys)
keep_last-keep_last n xs ys =
    let d = length xs - n in
    let same : d + (length (drop d (xs ++ ys)) - n) ≡ length (xs ++ ys) - n =
      omega (arith, length-drop d (xs ++ ys), length-append xs ys) in
    rw
      (
        keep_last-drop n xs,
        drop_append d xs ys (omega arith),
        keep_last-drop n (drop d (xs ++ ys)),
        drop-drop (length (drop d (xs ++ ys)) - n) d (xs ++ ys),
        same,
      )
      (sym (keep_last-drop n (xs ++ ys)))

module _ {P : Type 0} where
  pub closed_frame :
      (s : Session P) (out : Bytes)
      → s.tui ≡ false
      → device_frame s out ≡ record s { to_client = s.to_client ++ out }
  unfolding device_frame
  closed_frame s out e = simp e

  pub open_frame :
      (s : Session P) (out : Bytes)
      → s.tui ≡ true
      → device_frame s out ≡ record s { out_buf = keep_last tui_out_buf_max (s.out_buf ++ out) }
  unfolding device_frame
  open_frame s out e = simp e

  pump_closed :
      (f : Option OutProc) (s : Session P) (frames : List Bytes)
      → s.tui ≡ false
      → (pump f s frames).1
        ≡ record s { to_client = s.to_client ++ (filtered f (concat_all frames)).1 }
  unfolding pump
  pump_closed f s [] e = rw (filtered-nil f, append-nil s.to_client) refl
  pump_closed f s (x ∷ xs) e =
      let f' = (filtered f x).0 in
      let out = (filtered f x).1 in
      let more = (filtered f' (concat_all xs)).1 in
      ap (λ t. (pump f' t xs).1) (closed_frame s out e)
      ∙ pump_closed f' (record s { to_client = s.to_client ++ out }) xs e
      ∙ ap (λ o. record s { to_client = o })
          (append_assoc s.to_client out more
            ∙ ap (λ r. s.to_client ++ r.1) (sym (filtered-append f x (concat_all xs))))

  pump_open :
      (f : Option OutProc) (s : Session P) (frames : List Bytes)
      → s.tui ≡ true
      → length s.out_buf ≤ tui_out_buf_max
      → (pump f s frames).1 ≡ record s {
        out_buf = keep_last tui_out_buf_max (s.out_buf ++ (filtered f (concat_all frames)).1);
      }
  unfolding pump
  pump_open f s [] e h =
      ap (λ o. record s { out_buf = o })
        (sym (keep_last_short s.out_buf h)
          ∙ ap (keep_last tui_out_buf_max)
              (sym (append-nil s.out_buf) ∙ ap (λ r. s.out_buf ++ r.1) (sym (filtered-nil f))))
  pump_open f s (x ∷ xs) e h =
      let f' = (filtered f x).0 in
      let out = (filtered f x).1 in
      let more = (filtered f' (concat_all xs)).1 in
      let buf = keep_last tui_out_buf_max (s.out_buf ++ out) in
      ap (λ t. (pump f' t xs).1) (open_frame s out e)
      ∙ pump_open f' (record s { out_buf = buf }) xs e
          (length-keep_last tui_out_buf_max (s.out_buf ++ out))
      ∙ ap (λ o. record s { out_buf = o })
          (keep_last-keep_last tui_out_buf_max (s.out_buf ++ out) more
            ∙ ap (keep_last tui_out_buf_max) (
                append_assoc s.out_buf out more
                ∙ ap (λ r. s.out_buf ++ r.1) (sym (filtered-append f x (concat_all xs)))))

  -- With the panel closed, the client is sent what the filter of the connection makes of the
  -- device's bytes as one text, however they come in frames, and nothing else changes.
  pub pump_ws_to_tcp_closed :
      (s : Session P) (frames : List Bytes)
      → s.tui ≡ false
      → pump_ws_to_tcp s frames
        ≡ record s { to_client = s.to_client ++ (filtered (filter_of s.cfg) (concat_all frames)).1 }
  unfolding pump_ws_to_tcp
  pump_ws_to_tcp_closed s frames e = pump_closed (filter_of s.cfg) s frames e

  -- Output that comes while the panel is open is not written: with a buffer of at most 262144
  -- bytes, when the panel is closed, behind three control sequences, the client gets all that was
  -- kept and all that came, through the filter, or the last 262144 bytes of it where it is longer,
  -- and the buffer is empty again.
  pub exit_tui-pump_ws_to_tcp :
      (s : Session P) (frames : List Bytes)
      → s.tui ≡ true
      → length s.out_buf ≤ tui_out_buf_max
      → exit_tui (pump_ws_to_tcp s frames) ≡ record s {
        tui = false;
        out_buf = [];
        to_client =
            s.to_client
            ++ (ansi_show_cur ++ ansi_wrap_on ++ ansi_leave_alt)
            ++ keep_last tui_out_buf_max
                (s.out_buf ++ (filtered (filter_of s.cfg) (concat_all frames)).1);
      }
  unfolding pump_ws_to_tcp exit_tui
  exit_tui-pump_ws_to_tcp s frames e h = ap exit_tui (pump_open (filter_of s.cfg) s frames e h)

  -- When a connection ends while the panel is open, and the screen can be restored, what was held
  -- back stays held back: the output of the next connection is written first, and the older output
  -- behind it when a panel has been opened and is closed.
  pub pump_ws_to_tcp-end_bridge :
      (panel : Panel P) (writable : Bytes → Bool) (s : Session P) (frames : List Bytes)
      → s.tui ≡ true
      → writable (s.to_client ++ (ansi_show_cur ++ ansi_wrap_on ++ ansi_leave_alt)) ≡ true
      → (let s' = pump_ws_to_tcp (end_bridge writable s) frames in
          (s' ≡ record s {
            tui = false;
            to_client =
                (s.to_client ++ (ansi_show_cur ++ ansi_wrap_on ++ ansi_leave_alt))
                ++ (filtered (filter_of s.cfg) (concat_all frames)).1;
          })
          × ((exit_tui (enter_tui panel s')).to_client
              ≡ (enter_tui panel s').to_client
                ++ (ansi_show_cur ++ ansi_wrap_on ++ ansi_leave_alt)
                ++ s.out_buf)
          × ((exit_tui (enter_tui panel s')).out_buf ≡ []))
  unfolding end_bridge enter_tui exit_tui
  pump_ws_to_tcp-end_bridge panel writable s frames e up =
      let s1 = record s {
        tui = false;
        to_client = s.to_client ++ (ansi_show_cur ++ ansi_wrap_on ++ ansi_leave_alt);
      } in
      let same : pump_ws_to_tcp (end_bridge writable s) frames ≡ record s1 {
        to_client = s1.to_client ++ (filtered (filter_of s.cfg) (concat_all frames)).1;
      } =
        ap (λ t. pump_ws_to_tcp t frames) (rw (e, up) refl)
        ∙ pump_ws_to_tcp_closed s1 frames refl in
      rw same (refl, refl, refl)
