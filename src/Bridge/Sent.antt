-- ===== src/Bridge/Sent.antt =====
-- gateway-go/bridge.go: what it means that client bytes went to the device and did nothing else.
use imsai_8080_esp_tty_gtw.Prelude.{
  sym, ap, ◌∙◌, ◌<◌, false, Bytes, [], ◌++◌, ◌≡◌, refl, length, take, append_assoc, append-nil,
}
use imsai_8080_esp_tty_gtw.Bridge.Ws.{received}
use imsai_8080_esp_tty_gtw.Bridge.Session.{Session}

module _ {P : Type 0} where
  -- The bytes of a started hotkey, which are not sent yet.
  abbrev pub held : Session P → Bytes
  held s = take s.hk_match s.cfg.hotkey_bytes

  -- From `s` to `s'` the device got `bytes`, but for what is held, and nothing else happened.
  pub record IsSent (s s' : Session P) (bytes : Bytes) : Type 0 where
    pub delivered :
        (passed : Bytes) × (received s'.ws.sent ≡ received s.ws.sent ++ passed)
        × (passed ++ held s' ≡ held s ++ bytes)
    pub still_closed : s'.tui ≡ false
    pub still_short : s'.hk_match < length s'.cfg.hotkey_bytes
    pub client_same : s'.to_client ≡ s.to_client
    pub cfg_same : s'.cfg ≡ s.cfg

  pub none-IsSent :
      (s : Session P) → s.tui ≡ false → s.hk_match < length s.cfg.hotkey_bytes → IsSent s s []
  none-IsSent s closed short = record {
    delivered = ([], sym (append-nil (received s.ws.sent)), sym (append-nil (held s)));
    still_closed = closed;
    still_short = short;
    client_same = refl;
    cfg_same = refl;
  }

  pub both-IsSent :
      (s t u : Session P) (xs ys : Bytes) → IsSent s t xs → IsSent t u ys → IsSent s u (xs ++ ys)
  both-IsSent s t u xs ys a b =
      let (p, got_p, left_p) = a.delivered in
      let (q, got_q, left_q) = b.delivered in
      record {
        delivered = (
          p ++ q,
          got_q ∙ ap (λ o. o ++ q) got_p ∙ append_assoc (received s.ws.sent) p q,
          append_assoc p q (held u)
              ∙ ap (λ o. p ++ o) left_q
              ∙ sym (append_assoc p (held t) ys)
              ∙ ap (λ o. o ++ ys) left_p
              ∙ append_assoc (held s) xs ys,
        );
        still_closed = b.still_closed;
        still_short = b.still_short;
        client_same = b.client_same ∙ a.client_same;
        cfg_same = b.cfg_same ∙ a.cfg_same;
      }
