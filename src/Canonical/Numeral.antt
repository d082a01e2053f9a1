-- ===== src/Canonical/Numeral.antt =====
-- The decimal numeral of a number, as an f-string writes it, and the number of a numeral.
use allora_sdk_py.Prelude.{
  ℕ, zero, suc, ◌+◌, ◌-◌, ◌*◌, ◌/◌, ◌%◌, ◌<◌, ◌≡◌, ap, ◌∙◌, [], ◌∷◌, arith, ltb, if◌then◌else◌,
  Bool-cases, inl, inr,
}
use allora_sdk_py.Tx.Errors.{Text}

-- the digits of `n` before `acc`; `fuel` is above `n`
unfoldable pub show_onto : ℕ → ℕ → Text → Text
show_onto zero n acc = acc
show_onto (suc fuel) n acc =
    let rest = show_onto fuel (n / 10) ((b'0' + n % 10) ∷ acc) in
    if ltb n 10 then (b'0' + n) ∷ acc else rest

unfoldable pub show : ℕ → Text
unfolding show_onto
show n = show_onto (suc n) n []

-- the number that the characters stand for, behind `acc`
unfoldable pub read_onto : ℕ → Text → ℕ
read_onto acc [] = acc
read_onto acc (c ∷ t) = read_onto (acc * 10 + (c - b'0')) t

unfoldable pub read_nat : Text → ℕ
unfolding read_onto
read_nat t = read_onto 0 t

-- Reading the numeral and what follows it is reading what follows behind the number.
read_onto-show_onto :
    (fuel n : ℕ) (acc : Text) → n < fuel → read_onto 0 (show_onto fuel n acc) ≡ read_onto n acc
unfolding read_onto show_onto
read_onto-show_onto zero n acc h = absurd (omega arith)
read_onto-show_onto (suc fuel) n acc h = elim (Bool-cases (ltb n 10)) [
  | inl small ↦ rw small (ap (λ k. read_onto k acc) (omega arith))
  | inr large ↦
      let up : n / 10 < fuel = ground arith in
      rw large (
        read_onto-show_onto fuel (n / 10) ((b'0' + n % 10) ∷ acc) up
        ∙ ap (λ k. read_onto k acc) (omega arith))
]

-- The number of a numeral is the number that it was written for.
pub read_nat-show : (n : ℕ) → read_nat (show n) ≡ n
unfolding read_nat show
read_nat-show n = read_onto-show_onto (suc n) n [] (omega arith)
