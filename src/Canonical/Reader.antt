-- ===== src/Canonical/Reader.antt =====
-- A reader of decimal notation, to hold the formats against: an optional sign, digits with an optional
-- point, and an optional exponent behind `E`.
use allora_sdk_py.Prelude.{
  ℕ, zero, suc, ◌+◌, ◌-◌, ◌≡◌, refl, ap, Bool, true, false, Option, none, some, List, [], ◌∷◌, ◌++◌,
  map, arith, ◌==◌, length, elem, get_or, if◌then◌else◌, ◌⊎◌, ◌<◌, All,
}
use allora_sdk_py.Prelude.Int.{ℤ, pos, negsuc, ◌+ℤ◌}
use allora_sdk_py.Tx.Errors.{Text}
use allora_sdk_py.Canonical.{Decimal, finite, digit_chars, zeros}
use allora_sdk_py.Canonical.Numeral.{read_nat}

-- what stands before the first `c`, and behind it
abbrev pub split_at : ℕ → Text → Text × Option Text
split_at c [] = ([], none)
split_at c (d ∷ t) =
    let (before, behind) = split_at c t in if d == c then ([], some t) else (d ∷ before, behind)

abbrev pub digit_values : Text → List ℕ
digit_values = map (λ c. c - b'0')

-- without leading zeros, but for the last digit
abbrev pub trim : List ℕ → List ℕ
trim [] = []
trim (d ∷ []) = d ∷ []
trim (zero ∷ d ∷ ds) = trim (d ∷ ds)
trim (suc c ∷ d ∷ ds) = suc c ∷ d ∷ ds

abbrev pub neg : ℕ → ℤ
neg zero = pos 0
neg (suc n) = negsuc n

abbrev pub exponent_of : Option Text → ℤ
exponent_of none = pos 0
exponent_of (some []) = pos 0
exponent_of (some (c ∷ t)) = if c == b'-' then neg (read_nat t) else pos (read_nat t)

abbrev pub mantissa : Text → List ℕ × ℤ
mantissa t =
    let (whole, fraction) = split_at b'.' t in
    (trim (digit_values (whole ++ get_or fraction [])), neg (length (get_or fraction [])))

unfoldable pub read_unsigned : Bool → Text → Decimal
unfolding ◌+ℤ◌
read_unsigned sign t =
    let (m, e) = split_at b'E' t in
    let (digits, places) = mantissa m in finite sign digits (exponent_of e +ℤ places)

unfoldable pub read : Text → Decimal
unfolding read_unsigned
read [] = read_unsigned false []
read (c ∷ t) = if c == b'-' then read_unsigned true t else read_unsigned false (c ∷ t)

pub split_at-absent : (c : ℕ) (t : Text) → elem c t ≡ false → split_at c t ≡ (t, none)
split_at-absent c [] h = refl
split_at-absent c (d ∷ t) h = ground (arith, split_at-absent c t)

pub split_at-append :
    (c : ℕ) (t u : Text) → elem c t ≡ false → split_at c (t ++ c ∷ u) ≡ (t, some u)
split_at-append c [] u h = ground arith
split_at-append c (d ∷ t) u h = ground (arith, split_at-append c t u)

pub elem-append :
    (c : ℕ) (t u : Text) → elem c t ≡ false → elem c u ≡ false → elem c (t ++ u) ≡ false
elem-append c [] u h k = k
elem-append c (d ∷ t) u h k = ground (arith, elem-append c t u)

-- no numeral character
abbrev pub IsMark : ℕ → Type 0
IsMark c = (c ≡ b'.') ⊎ ((c ≡ b'E') ⊎ (c ≡ b'-'))

pub elem-digit_chars :
    (c : ℕ) (ds : List ℕ) → IsMark c → All (λ d. d < 10) ds → elem c (digit_chars ds) ≡ false
unfolding digit_chars
elem-digit_chars c [] m h = refl
elem-digit_chars c (d ∷ ds) m h = ground (arith, elem-digit_chars c ds m h.1)

pub elem-zeros : (c : ℕ) (n : ℕ) → IsMark c → elem c (zeros n) ≡ false
unfolding zeros
elem-zeros c zero m = refl
elem-zeros c (suc n) m = ground (arith, elem-zeros c n m)

pub digit_values-digit_chars : (ds : List ℕ) → digit_values (digit_chars ds) ≡ ds
unfolding digit_chars
digit_values-digit_chars [] = refl
digit_values-digit_chars (d ∷ ds) = cc (digit_values-digit_chars ds, cancel)
  where
    cancel : b'0' + d - b'0' ≡ d
    cancel = omega arith

pub length-digit_chars : (ds : List ℕ) → length (digit_chars ds) ≡ length ds
unfolding digit_chars
length-digit_chars [] = refl
length-digit_chars (d ∷ ds) = ap suc (length-digit_chars ds)

pub length-zeros : (n : ℕ) → length (zeros n) ≡ n
unfolding zeros
length-zeros zero = refl
length-zeros (suc n) = ap suc (length-zeros n)

-- leading zeros change nothing
pub trim-zeros :
    (n d : ℕ) (t : Text) → trim (digit_values (zeros n ++ d ∷ t)) ≡ trim (digit_values (d ∷ t))
unfolding zeros
trim-zeros zero d t = refl
trim-zeros (suc zero) d t = refl
trim-zeros (suc (suc n)) d t = trim-zeros (suc n) d t
