-- ===== src/Canonical.antt =====
-- src/allora_sdk/rpc_client/dec_canonical.py: the text of a decimal that is signed. A `Decimal` of the
-- standard library is its `as_tuple`: sign, digits and exponent, or a special value. `Decimal(text)`,
-- `Decimal(int)` and `str(float)` are parameters.
pub mod Numeral
pub mod Reader
pub mod Plain
pub mod RoundTrip
pub mod Outcome
pub mod Tests
use allora_sdk_py.Prelude.{
  ℕ, zero, suc, ◌+◌, ◌-◌, Bool, true, false, ◌&&◌, Option, none, some, List, [], ◌∷◌, ◌++◌, map,
  ◌==◌, length, drop, take, if◌then◌else◌,
}
use allora_sdk_py.Prelude.Int.{ℤ, pos, negsuc, neg_part, ◌+ℤ◌, leb_ℤ}
use allora_sdk_py.Tx.Errors.{Text, codes}
use allora_sdk_py.Canonical.Numeral.{show}

pub data Decimal : Type 0 where
  finite : Bool → List ℕ → ℤ → Decimal
  special : Decimal

pub data CanonError : Type 0 where
  value_error type_error : CanonError

-- what a function returns, or the exception it raises
pub data Fallible (A : Type 0) : Type 0 where
  value : A → Fallible A
  error : CanonError → Fallible A

-- `_ADJ_EXPONENT_LIMIT`, and `_LOWEST_ZERO_NEG_COEFF` without its sign
abbrev pub adj_exponent_limit : ℤ
adj_exponent_limit = negsuc 5

abbrev pub lowest_zero_neg_coeff : ℤ
lowest_zero_neg_coeff = negsuc 1999

-- `n * "0"`
unfoldable pub zeros : ℕ → Text
zeros zero = []
zeros (suc n) = b'0' ∷ zeros n

-- `str` of each digit, joined
unfoldable pub digit_chars : List ℕ → Text
digit_chars = map (λ d. b'0' + d)

-- `_fmt_f` with a negative exponent, by `left` and `offset`
unfoldable pub point_at : Text → ℕ → Text
unfolding zeros
point_at digits places =
    if leb_ℤ (pos (length digits)) (pos places)
    then codes "0." ++ zeros (places - length digits) ++ digits
    else take (length digits - places) digits ++ b'.' ∷ drop (length digits - places) digits

-- `_fmt_f`
unfoldable pub fmt_f : Text → ℤ → Text
unfolding point_at
fmt_f digits (pos exponent) = digits ++ zeros exponent
fmt_f digits (negsuc n) = point_at digits (suc n)

-- the exponent of the first digit
abbrev pub adjusted : ℕ → ℤ → ℤ
adjusted digit_len exponent = exponent +ℤ pos digit_len +ℤ negsuc 0

unfoldable pub fmt_exponent : ℤ → Text
fmt_exponent (pos n) = codes "E+" ++ show n
fmt_exponent (negsuc n) = codes "E-" ++ show (suc n)

unfoldable pub fmt_body : Text → Text
fmt_body [] = []
fmt_body (c ∷ []) = c ∷ []
fmt_body (c ∷ d ∷ digits) = c ∷ b'.' ∷ d ∷ digits

-- `_fmt_e`; `digits` is not empty
unfoldable pub fmt_e : Text → ℤ → Text
unfolding fmt_body fmt_exponent ◌+ℤ◌
fmt_e digits exponent = fmt_body digits ++ fmt_exponent (adjusted (length digits) exponent)

unfoldable pub is_zero : List ℕ → Bool
is_zero [] = true
is_zero (d ∷ ds) = d == 0 && is_zero ds

-- `digit_len`, with the padding of a zero
unfoldable pub padded_len : List ℕ → ℤ → ℕ
unfolding is_zero
padded_len ds (pos exponent) = length ds
padded_len ds (negsuc n) =
    if is_zero ds && leb_ℤ lowest_zero_neg_coeff (negsuc n) then length ds + suc n else length ds

-- whether the form without exponent is taken
unfoldable pub is_plain : List ℕ → ℤ → Bool
unfolding padded_len ◌+ℤ◌
is_plain ds exponent =
    leb_ℤ exponent (pos 0) && leb_ℤ adj_exponent_limit (adjusted (padded_len ds exponent) exponent)

unfoldable pub sign_str : Bool → Text
sign_str true = codes "-"
sign_str false = []

unfoldable pub format : Bool → List ℕ → ℤ → Text
unfolding digit_chars is_plain fmt_f fmt_e sign_str
format sign ds exponent =
    sign_str sign
    ++ (if is_plain ds exponent
        then fmt_f (digit_chars ds) exponent
        else fmt_e (digit_chars ds) exponent)

-- the inputs: `unsupported` is any other type
pub data DecInput (F : Type 0) : Type 0 where
  decimal : Decimal → DecInput F
  float : F → DecInput F
  int : ℤ → DecInput F
  text : Text → DecInput F
  unsupported : DecInput F

-- what the standard library does
pub record Decimals : Type 1 where
  pub F : Type 0
  pub str_of_float : F → Text
  -- `Decimal(text)`; `none` is `InvalidOperation`
  pub parse : Text → Option Decimal
  pub of_int : ℤ → Decimal

unfoldable pub or_value_error : Option Decimal → Fallible Decimal
or_value_error none = error value_error
or_value_error (some d) = value d

-- `_to_decimal`
unfoldable pub to_decimal : (lib : Decimals) → DecInput lib.F → Fallible Decimal
unfolding or_value_error
to_decimal lib (decimal d) = value d
to_decimal lib (float x) = or_value_error (lib.parse (lib.str_of_float x))
to_decimal lib (int n) = value (lib.of_int n)
to_decimal lib (text t) = or_value_error (lib.parse t)
to_decimal lib unsupported = error type_error

-- `canonicalize_dec` behind `_to_decimal`
unfoldable pub canonicalize : Fallible Decimal → Fallible Text
unfolding format
canonicalize (value (finite sign ds exponent)) = value (format sign ds exponent)
canonicalize (value special) = error value_error
canonicalize (error e) = error e

-- `canonicalize_dec`
unfoldable pub canonicalize_dec : (lib : Decimals) → DecInput lib.F → Fallible Text
unfolding canonicalize to_decimal
canonicalize_dec lib i = canonicalize (to_decimal lib i)
