-- ===== src/Canonical/RoundTrip.antt =====
-- About src/allora_sdk/rpc_client/dec_canonical.py: the two forms beside a reader of decimal notation.
use allora_sdk_py.Prelude.{
  ℕ, zero, suc, ◌+◌, ◌-◌, ◌<◌, ◌≡◌, refl, ap, ◌∙◌, Bool, true, false, some, List, [], ◌∷◌, ◌++◌,
  arith, ◌==◌, length, drop, take, if◌then◌else◌, Bool-cases, inl, inr,
}
use allora_sdk_py.Prelude.Int.{ℤ, pos, negsuc, ◌+ℤ◌, leb_ℤ}
use allora_sdk_py.Tx.Errors.{Text}
use allora_sdk_py.Canonical.{
  finite, digit_chars, point_at, fmt_f, fmt_exponent, fmt_body, fmt_e, is_plain, sign_str, format,
  adjusted,
}
use allora_sdk_py.Canonical.Numeral.{show, read_nat-show}
use allora_sdk_py.Canonical.Reader.{trim, neg, exponent_of, read_unsigned, read, length-digit_chars}
use allora_sdk_py.Canonical.Plain.{
  IsCoefficient, read_unsigned-exponent, adjusted-neg, no_e-fmt_body, mantissa-fmt_body,
  read_unsigned-fmt_f,
}

exponent_of-fmt : (e : ℤ) → (u : Text) × ((fmt_exponent e ≡ b'E' ∷ u) × (exponent_of (some u) ≡ e))
unfolding fmt_exponent
exponent_of-fmt (pos n) = (b'+' ∷ show n, (refl, ap pos (read_nat-show n)))
exponent_of-fmt (negsuc n) = (b'-' ∷ show (suc n), (refl, ap neg (read_nat-show (suc n))))

-- a body with an exponent that the places behind its point take back
read_unsigned-scaled :
    (sign : Bool) (d : ℕ) (l : List ℕ) (a e : ℤ)
    → IsCoefficient (d ∷ l)
    → a +ℤ neg (length l) ≡ e
    → read_unsigned sign (fmt_body (digit_chars (d ∷ l)) ++ fmt_exponent a) ≡ finite sign (d ∷ l) e
read_unsigned-scaled sign d l a e ok back =
    let (u, (written, known)) = exponent_of-fmt a in
    let body : Text = fmt_body (digit_chars (d ∷ l)) in
    ap (λ t. read_unsigned sign (body ++ t)) written
    ∙ read_unsigned-exponent sign body u (no_e-fmt_body (d ∷ l) ok.small)
    ∙ ap (λ m. finite sign m.0 (exponent_of (some u) +ℤ m.1)) (mantissa-fmt_body d l ok.small)
    ∙ ap (λ b. finite sign (trim (d ∷ l)) (b +ℤ neg (length l))) known
    ∙ ap (finite sign (trim (d ∷ l))) back
    ∙ ap (λ v. finite sign v e) ok.trimmed

-- The scientific form reads back.
read_unsigned-fmt_e :
    (sign : Bool) (ds : List ℕ) (e : ℤ)
    → IsCoefficient ds
    → read_unsigned sign (fmt_e (digit_chars ds) e) ≡ finite sign ds e
unfolding fmt_e
read_unsigned-fmt_e sign [] e ok = absurd (ok.nonempty refl)
read_unsigned-fmt_e sign (d ∷ l) e ok =
    read_unsigned-scaled sign d l (adjusted (length (digit_chars (d ∷ l))) e) e ok (
      ap (λ n. adjusted n e +ℤ neg (length l)) (length-digit_chars (d ∷ l))
      ∙ adjusted-neg (length l) e)

-- the text without its sign
abbrev unsigned : List ℕ → ℤ → Text
unsigned ds e = if is_plain ds e then fmt_f (digit_chars ds) e else fmt_e (digit_chars ds) e

read_unsigned-unsigned :
    (sign : Bool) (ds : List ℕ) (e : ℤ)
    → IsCoefficient ds
    → read_unsigned sign (unsigned ds e) ≡ finite sign ds e
unfolding is_plain
read_unsigned-unsigned sign ds e ok = elim (Bool-cases (is_plain ds e)) [
  | inl plain ↦ rw plain (read_unsigned-fmt_f ds ok sign e (ground arith))
  | inr scaled ↦ rw scaled (read_unsigned-fmt_e sign ds e ok)
]

-- a text that is not empty and does not begin with the sign
abbrev IsUnsigned : Text → Type 0
IsUnsigned [] = ⊥
IsUnsigned (c ∷ t) = c == b'-' ≡ false

no_minus : (d : ℕ) → b'0' + d == b'-' ≡ false
no_minus d = ground arith

IsUnsigned-fmt_f : (d : ℕ) (l : List ℕ) (e : ℤ) → IsUnsigned (fmt_f (digit_chars (d ∷ l)) e)
unfolding fmt_f point_at digit_chars
IsUnsigned-fmt_f d l (pos n) = no_minus d
IsUnsigned-fmt_f d l (negsuc n) =
    elim (Bool-cases (leb_ℤ (pos (length (digit_chars (d ∷ l)))) (pos (suc n)))) [
      | inl fits ↦ rw fits refl
      | inr over ↦ rw over (go (length (digit_chars (d ∷ l)) - suc n) (ground arith))
    ]
  where
    go :
        (k : ℕ)
        → 0 < k
        → IsUnsigned (take k (digit_chars (d ∷ l)) ++ b'.' ∷ drop k (digit_chars (d ∷ l)))
    go zero h = absurd (omega arith)
    go (suc k) h = no_minus d

IsUnsigned-fmt_e : (d : ℕ) (l : List ℕ) (e : ℤ) → IsUnsigned (fmt_e (digit_chars (d ∷ l)) e)
unfolding fmt_e fmt_body digit_chars
IsUnsigned-fmt_e d [] e = no_minus d
IsUnsigned-fmt_e d (c ∷ l) e = no_minus d

IsUnsigned-unsigned : (ds : List ℕ) (e : ℤ) → IsCoefficient ds → IsUnsigned (unsigned ds e)
IsUnsigned-unsigned [] e ok = absurd (ok.nonempty refl)
IsUnsigned-unsigned (d ∷ l) e ok = elim (Bool-cases (is_plain (d ∷ l) e)) [
  | inl plain ↦ rw plain (IsUnsigned-fmt_f d l e)
  | inr scaled ↦ rw scaled (IsUnsigned-fmt_e d l e)
]

read-unsigned :
    (sign : Bool) (t : Text) → IsUnsigned t → read (sign_str sign ++ t) ≡ read_unsigned sign t
unfolding read sign_str
read-unsigned true t h = refl
read-unsigned false [] h = absurd h
read-unsigned false (c ∷ t) h = rw h refl

-- Let the digits of a finite decimal be at least one, below 10, and without a leading zero unless
-- it is the only digit. Then reading the text that it is formatted as, by a reader of decimal
-- notation with a point and an exponent, gives its sign, digits and exponent.
pub read-format :
    (sign : Bool) (ds : List ℕ) (e : ℤ)
    → IsCoefficient ds
    → read (format sign ds e) ≡ finite sign ds e
unfolding format
read-format sign ds e ok =
    read-unsigned sign (unsigned ds e) (IsUnsigned-unsigned ds e ok)
    ∙ read_unsigned-unsigned sign ds e ok
