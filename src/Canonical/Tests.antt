-- ===== src/Canonical/Tests.antt =====
-- dec_canonical.py on concrete decimals, with a library that parses one text.
use allora_sdk_py.Prelude.{ℕ, ◌≡◌, refl, true, false, none, some, [], ◌∷◌, arith}
use allora_sdk_py.Prelude.Int.{pos, negsuc}
use allora_sdk_py.Tx.Errors.{codes}
use allora_sdk_py.Canonical.{Decimal, finite, format, Decimals, decimal, int, canonicalize_dec}
use allora_sdk_py.Canonical.Numeral.{show}
use allora_sdk_py.Canonical.Reader.{read}
use allora_sdk_py.Canonical.Plain.{IsCoefficient}
use allora_sdk_py.Canonical.RoundTrip.{read-format}
use allora_sdk_py.Canonical.Outcome.{
  IsBuilt, Stands, Ends, canonicalize_dec-Ends, canonicalize_dec-injective,
}

one_two : IsCoefficient (1 ∷ 2 ∷ [])
one_two = record {
  nonempty = λ e. ground arith;
  small = (omega arith, (omega arith, tt));
  trimmed = refl;
}

nought : IsCoefficient (0 ∷ [])
nought = record { nonempty = λ e. ground arith; small = (omega arith, tt); trimmed = refl }

read-format_example :
    read (format true (1 ∷ 2 ∷ []) (negsuc 9)) ≡ finite true (1 ∷ 2 ∷ []) (negsuc 9)
read-format_example = read-format true (1 ∷ 2 ∷ []) (negsuc 9) one_two

plain : format true (1 ∷ 2 ∷ []) (negsuc 3) ≡ codes "-0.0012"
unfolding format show
plain = refl

scaled : format false (1 ∷ 2 ∷ []) (negsuc 9) ≡ codes "1.2E-9"
unfolding format show
scaled = refl

-- no text is a decimal, and every integer is read as zero
abbrev nothing_parses : Decimals
nothing_parses = record {
  F = ℕ;
  str_of_float = λ _. [];
  parse = λ _. none;
  of_int = λ _. finite false (0 ∷ []) (pos 0);
}

nothing_parses-IsBuilt : IsBuilt nothing_parses
nothing_parses-IsBuilt = record { parsed = λ t d e. ground arith; of_int = λ n. nought }

canonicalize_dec-Ends_example :
    Ends nothing_parses
      (decimal (finite true (1 ∷ 2 ∷ []) (negsuc 3)))
      (canonicalize_dec nothing_parses (decimal (finite true (1 ∷ 2 ∷ []) (negsuc 3))))
canonicalize_dec-Ends_example =
    canonicalize_dec-Ends nothing_parses (decimal (finite true (1 ∷ 2 ∷ []) (negsuc 3)))
      nothing_parses-IsBuilt one_two

-- an integer as the decimal nought, and a decimal that is nought
canonicalize_dec-injective_example :
    (d : Decimal) × Stands nothing_parses (int (pos 3)) (some d)
    × Stands nothing_parses (decimal (finite false (0 ∷ []) (pos 0))) (some d)
canonicalize_dec-injective_example =
    canonicalize_dec-injective nothing_parses (int (pos 3))
      (decimal (finite false (0 ∷ []) (pos 0))) (codes "0") nothing_parses-IsBuilt tt nought
      (unfold canonicalize_dec format show in refl) (unfold canonicalize_dec format show in refl)
