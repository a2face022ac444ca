-- ===== src/Device/Retry.antt =====
-- gateway-go/device.go: when a request is sent again.
use imsai_8080_esp_tty_gtw.Prelude.{
  ℕ, List, ◌∷◌, Bool, true, false, Bytes, Result, ok, err, ◌==◌, if◌then◌else◌, ◌≡◌, refl, ◌⊎◌, inl,
  inr, arith, Bool-cases,
}
use imsai_8080_esp_tty_gtw.Device.Http.{
  Net, Request, get_url, Answer, failed, answered, with_what, bad_status, get_loop, http_get_body,
}

-- An answer that may be better another time: the connection or the body failed.
abbrev pub is_transient : Answer → Bool
is_transient (failed e) = true
is_transient (answered code (ok b)) = false
is_transient (answered code (err e)) = code == 200

-- What one request alone comes to.
abbrev pub verdict : Bytes → Answer → Result Bytes
verdict what (failed e) = err (with_what what e)
verdict what (answered code (ok b)) = if code == 200 then ok b else err (bad_status what code)
verdict what (answered code (err e)) =
    if code == 200 then err (with_what what e) else err (bad_status what code)

pub Answer-cases :
    (a : Answer)
    → ((e : Bytes) × (a ≡ failed e))
      ⊎ (((code : ℕ) × (e : Bytes) × (a ≡ answered code (err e)))
          ⊎ ((code : ℕ) × (b : Bytes) × (a ≡ answered code (ok b))))
Answer-cases (failed e) = inl (e, refl)
Answer-cases (answered code (err e)) = inr (inl (code, e, refl))
Answer-cases (answered code (ok b)) = inr (inr (code, b, refl))

last_try :
    (net : Net) (log : List Request) (url what last : Bytes)
    → get_loop 1 net log url what last ≡ (verdict what (net (get_url url ∷ log)), get_url url ∷ log)
unfolding get_loop
last_try net log url what last = elim (Answer-cases (net (get_url url ∷ log))) [
  | inl (e, a) ↦ ground (arith, a)
  | inr (inl (code, e, a)) ↦ ground (arith, a)
  | inr (inr (code, b, a)) ↦ ground (arith, a)
]

-- A GET whose first answer is not transient is one request, with its verdict; any other is sent
-- again, once, and its result is the verdict of the second answer, a transient one included.
pub http_get_body_once_more :
    (net : Net) (log : List Request) (url what : Bytes)
    → (let log1 = get_url url ∷ log in
        (is_transient (net log1) ≡ false)
        × (http_get_body net log url what ≡ (verdict what (net log1), log1)))
      ⊎ (let log1 = get_url url ∷ log in
          let log2 = get_url url ∷ log1 in
          (is_transient (net log1) ≡ true)
          × (http_get_body net log url what ≡ (verdict what (net log2), log2)))
unfolding http_get_body get_loop
http_get_body_once_more net log url what =
    let log1 = get_url url ∷ log in
    let second = λ (last : Bytes). last_try net log1 url what last in
    elim (Answer-cases (net log1)) [
      | inl (e, a) ↦ inr (ground (arith, a), ground (arith, a, second e))
      | inr (inl (code, e, a)) ↦ elim (Bool-cases (code == 200)) [
        | inl good ↦ inr (ground (arith, a), ground (arith, a, second e))
        | inr bad ↦ inl (ground (arith, a), ground (arith, a))
      ]
      | inr (inr (code, b, a)) ↦ inl (ground (arith, a), ground (arith, a))
    ]
