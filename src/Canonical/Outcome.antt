-- ===== src/Canonical/Outcome.antt =====
-- About src/allora_sdk/rpc_client/dec_canonical.py: how `canonicalize_dec` ends, on each kind of input.
use allora_sdk_py.Prelude.{ℕ, ◌≡◌, refl, sym, ap, subst, ◌∙◌, Bool, Option, none, some, List, arith}
use allora_sdk_py.Prelude.Int.{ℤ}
use allora_sdk_py.Tx.Errors.{Text}
use allora_sdk_py.Canonical.{
  Decimal, finite, special, value_error, type_error, Fallible, value, error, format, DecInput,
  decimal, float, int, text, unsupported, Decimals, or_value_error, to_decimal, canonicalize,
  canonicalize_dec,
}
use allora_sdk_py.Canonical.Reader.{read}
use allora_sdk_py.Canonical.Plain.{IsCoefficient}
use allora_sdk_py.Canonical.RoundTrip.{read-format}

-- a decimal as the standard library builds it
abbrev pub IsNormal : Decimal → Type 0
IsNormal (finite sign ds e) = IsCoefficient ds
IsNormal special = Unit

-- every decimal behind an input is one that the standard library builds
pub record IsBuilt (lib : Decimals) : Type 0 where
  pub parsed : (t : Text) (d : Decimal) → lib.parse t ≡ some d → IsNormal d
  pub of_int : (n : ℤ) → IsNormal (lib.of_int n)

abbrev pub IsNormalInput : {F : Type 0} → DecInput F → Type 0
IsNormalInput (decimal d) = IsNormal d
IsNormalInput (float x) = Unit
IsNormalInput (int n) = Unit
IsNormalInput (text t) = Unit
IsNormalInput unsupported = Unit

-- what an input stands for, beside the code: a decimal or nothing, and an unsupported one for neither
abbrev pub Stands : (lib : Decimals) → DecInput lib.F → Option Decimal → Type 0
Stands lib (decimal d) o = o ≡ some d
Stands lib (float x) o = o ≡ lib.parse (lib.str_of_float x)
Stands lib (int n) o = o ≡ some (lib.of_int n)
Stands lib (text t) o = o ≡ lib.parse t
Stands lib unsupported o = ⊥

-- a text that reads back as the decimal of the input, or an error with its reason
pub data Ends (lib : Decimals) (i : DecInput lib.F) : Fallible Text → Type 0 where
  reads_back :
      (sign : Bool) (ds : List ℕ) (e : ℤ) (t : Text)
      → Stands lib i (some (finite sign ds e))
      → read t ≡ finite sign ds e
      → Ends lib i (value t)
  not_finite : Stands lib i (some special) → Ends lib i (error value_error)
  not_parsed : Stands lib i none → Ends lib i (error value_error)
  wrong_type : i ≡ unsupported → Ends lib i (error type_error)

module _ (lib : Decimals) (i : DecInput lib.F) where
  canonicalize-Ends :
      (d : Decimal) → IsNormal d → Stands lib i (some d) → Ends lib i (canonicalize (value d))
  unfolding canonicalize
  canonicalize-Ends (finite sign ds e) n h =
      reads_back sign ds e (format sign ds e) h (read-format sign ds e n)
  canonicalize-Ends special n h = not_finite h

  or_value_error-Ends :
      IsBuilt lib
      → (t : Text) (o : Option Decimal) → lib.parse t ≡ o
      → Stands lib i o
      → Ends lib i (canonicalize (or_value_error o))
  unfolding canonicalize or_value_error
  or_value_error-Ends built t none p h = not_parsed h
  or_value_error-Ends built t (some d) p h = canonicalize-Ends d (built.parsed t d p) h

-- Let every decimal of the library and of the input have at least one digit, digits below 10 and
-- no leading zero. Then `canonicalize_dec` returns a text that reads back as the decimal that the
-- input stands for, which for a text or a float is what its own text parses as; or it raises
-- `TypeError`, only for an unsupported type, or `ValueError`, only for an input whose own text
-- does not parse or whose decimal is not finite.
pub canonicalize_dec-Ends :
    (lib : Decimals) (i : DecInput lib.F)
    → IsBuilt lib
    → IsNormalInput i
    → Ends lib i (canonicalize_dec lib i)
unfolding canonicalize_dec to_decimal
canonicalize_dec-Ends lib (decimal d) built n = canonicalize-Ends lib (decimal d) d n refl
canonicalize_dec-Ends lib (float x) built n =
    or_value_error-Ends lib (float x) built (lib.str_of_float x) (lib.parse (lib.str_of_float x))
      refl refl
canonicalize_dec-Ends lib (int k) built n =
    canonicalize-Ends lib (int k) (lib.of_int k) (built.of_int k) refl
canonicalize_dec-Ends lib (text t) built n =
    or_value_error-Ends lib (text t) built t (lib.parse t) refl refl
canonicalize_dec-Ends lib unsupported built n = wrong_type refl

same_text : (t u : Text) → value u ≡ value t → u ≡ t
same_text t u h = ground arith

module _ (lib : Decimals) (i : DecInput lib.F) where
  Stands-read :
      (t : Text) (r : Fallible Text) → Ends lib i r → r ≡ value t → Stands lib i (some (read t))
  Stands-read t _ (reads_back sign ds e u s same) h =
      subst (λ d. Stands lib i (some d)) (sym same ∙ ap read (same_text t u h)) s
  Stands-read t _ (not_finite s) h = absurd (ground arith)
  Stands-read t _ (not_parsed s) h = absurd (ground arith)
  Stands-read t _ (wrong_type s) h = absurd (ground arith)

-- Let every decimal of the library and of two inputs have at least one digit, digits below 10 and
-- no leading zero. If `canonicalize_dec` gives both inputs the same text, then both stand for the
-- same decimal.
pub canonicalize_dec-injective :
    (lib : Decimals) (i j : DecInput lib.F) (t : Text)
    → IsBuilt lib
    → IsNormalInput i
    → IsNormalInput j
    → canonicalize_dec lib i ≡ value t
    → canonicalize_dec lib j ≡ value t
    → (d : Decimal) × Stands lib i (some d) × Stands lib j (some d)
canonicalize_dec-injective lib i j t built n m h k = (
  read t,
  Stands-read lib i t (canonicalize_dec lib i) (canonicalize_dec-Ends lib i built n) h,
  Stands-read lib j t (canonicalize_dec lib j) (canonicalize_dec-Ends lib j built m) k,
)
