-- ===== src/Bridge/Cut.antt =====
-- gateway-go/bridge.go: what `bytes.IndexByte` finds, and texts that do not have the hotkey.
use imsai_8080_esp_tty_gtw.Prelude.{
  inr, inl, Bool-cases, Option-cases, ◌||◌, has_prefix, ℕ, Bool, true, false, Bytes, [], ◌∷◌, ◌++◌,
  Option, none, some, ◌≡◌, refl, arith, ◌==◌, ==_iff,
}
use imsai_8080_esp_tty_gtw.Bridge.Input.{cut_at}

-- The hotkey stands somewhere in the text.
abbrev pub occurs : Bytes → Bytes → Bool
occurs hk [] = has_prefix [] hk
occurs hk (c ∷ cs) = let rest = occurs hk cs in has_prefix (c ∷ cs) hk || rest

occurs-tail : (hk : Bytes) (c : ℕ) (cs : Bytes) → occurs hk (c ∷ cs) ≡ false → occurs hk cs ≡ false
occurs-tail hk c cs h = ground arith

pub occurs_suffix : (hk pre post : Bytes) → occurs hk (pre ++ post) ≡ false → occurs hk post ≡ false
occurs_suffix hk [] post h = h
occurs_suffix hk (c ∷ pre) post h = occurs_suffix hk pre post (occurs-tail hk c (pre ++ post) h)

pub cut_at_split :
    (b : ℕ) (xs pre post : Bytes) → cut_at b xs ≡ some (pre, post) → xs ≡ pre ++ b ∷ post
unfolding cut_at
cut_at_split b [] pre post h = cc
cut_at_split b (c ∷ cs) pre post h = elim (Bool-cases (c == b)) [
  | inl e ↦ found ((==_iff c b).0 e) (rw e at h)
  | inr e ↦ elim (Option-cases (cut_at b cs)) [
    | inl n ↦ nowhere (rw (e, n) at h)
    | inr ((pre', post'), p) ↦ later pre' (cut_at_split b cs pre' post' p) (rw (e, p) at h)
  ]
]
  where
    found :
        c ≡ b
        → ◌≡◌ {A = Option (Bytes × Bytes)} (some ([], cs)) (some (pre, post))
        → c ∷ cs ≡ pre ++ b ∷ post
    found e h = ground arith

    nowhere : ◌≡◌ {A = Option (Bytes × Bytes)} none (some (pre, post)) → c ∷ cs ≡ pre ++ b ∷ post
    nowhere e = cc

    later :
        {post' : Bytes} (pre' : Bytes)
        → cs ≡ pre' ++ b ∷ post'
        → ◌≡◌ {A = Option (Bytes × Bytes)} (some (c ∷ pre', post')) (some (pre, post))
        → c ∷ cs ≡ pre ++ b ∷ post
    later pre' l e = ground arith

-- A text without the key has it nowhere to be cut at.
pub cut_at_absent : (b : ℕ) (xs : Bytes) → occurs (b ∷ []) xs ≡ false → cut_at b xs ≡ none
unfolding cut_at has_prefix
cut_at_absent b [] h = refl
cut_at_absent b (c ∷ cs) h = ground (arith, cut_at_absent b cs)

-- Behind the first of two bytes, the second does not follow.
pub occurs-second :
    (e k b : ℕ) (bs : Bytes) → occurs (e ∷ k ∷ []) (e ∷ b ∷ bs) ≡ false → (b == k) ≡ false
unfolding has_prefix
occurs-second e k b bs h = ground arith

has_prefix-append : (xs ys hk : Bytes) → has_prefix xs hk ≡ true → has_prefix (xs ++ ys) hk ≡ true
unfolding has_prefix
has_prefix-append xs ys [] h = ground arith
has_prefix-append [] ys (c ∷ hk) h = cc
has_prefix-append (x ∷ xs) ys (c ∷ hk) h = ground (arith, has_prefix-append xs ys hk)

occurs-has_prefix : (xs hk : Bytes) → has_prefix xs hk ≡ true → occurs hk xs ≡ true
occurs-has_prefix [] hk h = h
occurs-has_prefix (x ∷ xs) hk h = ground arith

occurs-append : (hk xs ys : Bytes) → occurs hk xs ≡ true → occurs hk (xs ++ ys) ≡ true
occurs-append hk [] ys h = occurs-has_prefix ys hk (has_prefix-append [] ys hk h)
occurs-append hk (x ∷ xs) ys h =
    ground (arith, occurs-append hk xs ys, has_prefix-append (x ∷ xs) ys hk)

pub occurs_front : (hk xs ys : Bytes) → occurs hk (xs ++ ys) ≡ false → occurs hk xs ≡ false
occurs_front hk xs ys h = ground (arith, occurs-append hk xs ys)
