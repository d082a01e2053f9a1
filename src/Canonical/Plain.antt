-- ===== src/Canonical/Plain.antt =====
-- About src/allora_sdk/rpc_client/dec_canonical.py: the form without an exponent, and the parts of the
-- scientific form, beside the reader.
use allora_sdk_py.Prelude.{
  ℕ, zero, suc, ◌+◌, ◌-◌, ◌<◌, ◌≡◌, ◌≢◌, refl, ap, ◌∙◌, Bool, true, false, some, List, [], ◌∷◌,
  ◌++◌, arith, length, drop, take, elem, Bool-cases, inl, inr, All, length-drop, length-append,
  append_nil, take-drop,
}
use allora_sdk_py.Prelude.Int.{ℤ, pos, negsuc, ◌+ℤ◌, leb_ℤ}
use allora_sdk_py.Tx.Errors.{Text, codes}
use allora_sdk_py.Canonical.{finite, zeros, digit_chars, point_at, fmt_f, fmt_body, adjusted}
use allora_sdk_py.Canonical.Reader.{
  digit_values, trim, neg, exponent_of, mantissa, read_unsigned, split_at-absent, split_at-append,
  elem-append, elem-digit_chars, elem-zeros, digit_values-digit_chars, length-digit_chars,
  length-zeros, trim-zeros,
}

-- the digits of a decimal: at least one, below 10, and none leading but for a zero
pub record IsCoefficient (ds : List ℕ) : Type 0 where
  pub nonempty : ds ≢ []
  pub small : All (λ d. d < 10) ds
  pub trimmed : trim ds ≡ ds

mantissa-whole : (t : Text) → elem b'.' t ≡ false → mantissa t ≡ (trim (digit_values t), pos 0)
mantissa-whole t h = rw (split_at-absent b'.' t h, append_nil t) refl

mantissa-point :
    (t u : Text)
    → elem b'.' t ≡ false
    → mantissa (t ++ b'.' ∷ u) ≡ (trim (digit_values (t ++ u)), neg (length u))
mantissa-point t u h = rw (split_at-append b'.' t u h) refl

read_unsigned-plain :
    (sign : Bool) (t : Text)
    → elem b'E' t ≡ false
    → read_unsigned sign t ≡ finite sign (mantissa t).0 (pos 0 +ℤ (mantissa t).1)
unfolding read_unsigned
read_unsigned-plain sign t h = rw (split_at-absent b'E' t h) refl

pub read_unsigned-exponent :
    (sign : Bool) (t u : Text)
    → elem b'E' t ≡ false
    → read_unsigned sign (t ++ b'E' ∷ u)
      ≡ finite sign (mantissa t).0 (exponent_of (some u) +ℤ (mantissa t).1)
unfolding read_unsigned
read_unsigned-exponent sign t u h = rw (split_at-append b'E' t u h) refl

zero_add : (e : ℤ) → pos 0 +ℤ e ≡ e
unfolding ◌+ℤ◌
zero_add (pos n) = ground arith
zero_add (negsuc n) = ground arith

-- the places behind the first digit undo the adjustment
pub adjusted-neg : (m : ℕ) (e : ℤ) → adjusted (suc m) e +ℤ neg m ≡ e
unfolding ◌+ℤ◌
adjusted-neg zero e = ground arith
adjusted-neg (suc m) e = ground arith

digit_text :
    (l : List ℕ)
    → All (λ d. d < 10) l
    → (elem b'.' (digit_chars l) ≡ false) × (elem b'E' (digit_chars l) ≡ false)
digit_text l h = (elem-digit_chars b'.' l (inl refl) h, elem-digit_chars b'E' l (inr (inl refl)) h)

pub no_e-fmt_body :
    (l : List ℕ) → All (λ d. d < 10) l → elem b'E' (fmt_body (digit_chars l)) ≡ false
unfolding fmt_body digit_chars
no_e-fmt_body [] h = refl
no_e-fmt_body (d ∷ []) h = (digit_text (d ∷ []) h).1
no_e-fmt_body (d ∷ c ∷ l) h = ground (arith, (digit_text (c ∷ l) h.1).1)

pub mantissa-fmt_body :
    (d : ℕ) (l : List ℕ)
    → All (λ c. c < 10) (d ∷ l)
    → mantissa (fmt_body (digit_chars (d ∷ l))) ≡ (trim (d ∷ l), neg (length l))
unfolding fmt_body digit_chars
mantissa-fmt_body d [] h =
    mantissa-whole (digit_chars (d ∷ [])) (digit_text (d ∷ []) h).0
    ∙ ap (λ v. (trim v, pos 0)) (digit_values-digit_chars (d ∷ []))
mantissa-fmt_body d (c ∷ l) h =
    mantissa-point (digit_chars (d ∷ [])) (digit_chars (c ∷ l)) (digit_text (d ∷ []) (h.0, tt)).0
    ∙ cc (digit_values-digit_chars (d ∷ c ∷ l), length-digit_chars (c ∷ l))

module _ (ds : List ℕ) (ok : IsCoefficient ds) where
  abbrev text : Text
  text = digit_chars ds

  no_point : elem b'.' text ≡ false
  no_point = elem-digit_chars b'.' ds (inl refl) ok.small

  no_e : elem b'E' text ≡ false
  no_e = elem-digit_chars b'E' ds (inr (inl refl)) ok.small

  values : trim (digit_values text) ≡ ds
  values = rw (digit_values-digit_chars ds) ok.trimmed

  elem-take : (c n : ℕ) (t : Text) → elem c t ≡ false → elem c (take n t) ≡ false
  elem-take c zero t h = refl
  elem-take c (suc n) [] h = refl
  elem-take c (suc n) (d ∷ t) h = ground (arith, elem-take c n t)

  elem-drop : (c n : ℕ) (t : Text) → elem c t ≡ false → elem c (drop n t) ≡ false
  elem-drop c zero t h = h
  elem-drop c (suc n) [] h = refl
  elem-drop c (suc n) (d ∷ t) h = elem-drop c n t (ground arith)

  trim-padded :
      (n : ℕ) (t : Text) → t ≢ [] → trim (digit_values (zeros n ++ t)) ≡ trim (digit_values t)
  trim-padded n [] h = absurd (h refl)
  trim-padded n (c ∷ t) h = trim-zeros n c t

  text-nonempty : text ≢ []
  unfolding digit_chars
  text-nonempty e = go ds ok.nonempty e
    where
      go : (l : List ℕ) → l ≢ [] → digit_chars l ≢ []
      go [] h e = h refl
      go (d ∷ l) h e = cc

  mantissa-padded :
      (n k : ℕ) (t : Text)
      → t ≢ []
      → trim (digit_values t) ≡ ds
      → k + length t ≡ suc n
      → mantissa (codes "0." ++ zeros k ++ t) ≡ (ds, negsuc n)
  unfolding zeros
  mantissa-padded n k t h v e =
      mantissa-point (codes "0") (zeros k ++ t) refl ∙ cc (trim-padded (suc k) t h, v, places)
    where
      places : neg (length (zeros k ++ t)) ≡ negsuc n
      places = rw (length-append (zeros k) t, length-zeros k, e) refl

  mantissa-inside :
      (n : ℕ)
      → suc n < length text
      → mantissa (take (length text - suc n) text ++ b'.' ∷ drop (length text - suc n) text)
        ≡ (ds, negsuc n)
  mantissa-inside n h =
      let k : ℕ = length text - suc n in
      mantissa-point (take k text) (drop k text) (elem-take b'.' k text no_point)
      ∙ cc (take-drop k text, values, places)
    where
      places : neg (length (drop (length text - suc n) text)) ≡ negsuc n
      places =
          let left : length (drop (length text - suc n) text) ≡ suc n =
            omega (arith, length-drop (length text - suc n) text) in
          ap neg left

  mantissa-point_at : (n : ℕ) → mantissa (point_at text (suc n)) ≡ (ds, negsuc n)
  unfolding point_at
  mantissa-point_at n = elim (Bool-cases (leb_ℤ (pos (length text)) (pos (suc n)))) [
    | inl fits ↦
        rw fits (mantissa-padded n (suc n - length text) text text-nonempty values (ground arith))
    | inr over ↦ rw over (mantissa-inside n (ground arith))
  ]

  no_e-point_at : (n : ℕ) → elem b'E' (point_at text (suc n)) ≡ false
  unfolding point_at
  no_e-point_at n =
      let k : ℕ = length text - suc n in
      ground (
        arith,
        elem-append b'E' (zeros (suc n - length text)) text
            (elem-zeros b'E' (suc n - length text) (inr (inl refl))) no_e,
        elem-append b'E' (take k text) (b'.' ∷ drop k text) (elem-take b'E' k text no_e),
        elem-drop b'E' k text no_e,
      )

  -- The form without an exponent reads back.
  pub read_unsigned-fmt_f :
      (sign : Bool) (e : ℤ)
      → leb_ℤ e (pos 0) ≡ true
      → read_unsigned sign (fmt_f text e) ≡ finite sign ds e
  unfolding fmt_f zeros ◌+ℤ◌
  read_unsigned-fmt_f sign (pos zero) h = rw append_nil (
      read_unsigned-plain sign text no_e
      ∙ ap (λ m. finite sign m.0 (pos 0 +ℤ m.1))
          (mantissa-whole text no_point ∙ ap (λ v. (v, pos 0)) values))
  read_unsigned-fmt_f sign (pos (suc n)) h = absurd (ground arith)
  read_unsigned-fmt_f sign (negsuc n) h =
      read_unsigned-plain sign (point_at text (suc n)) (no_e-point_at n)
      ∙ ap (λ m. finite sign m.0 (pos 0 +ℤ m.1)) (mantissa-point_at n)
      ∙ ap (finite sign ds) (zero_add (negsuc n))
