-- ===== src/Tx/Float.antt =====
-- Python's `float` as an interface: the program multiplies, adds and compares floats, and truncates
-- them to integers with `int(...)`. `literal a k` is the float nearest to a / 10^k. Values that the
-- modelled code meets are not negative, but for the settings that the constructor rejects.
use Prim.Native.Nat.{ℕ}
use mathlib.Core.Bool.{Bool}

pub record Float : Type 1 where
  pub F : Type 0
  pub literal : ℕ → ℕ → F
  pub of_int : ℕ → F
  pub times : F → F → F
  pub plus : F → F → F
  pub divide : F → F → F
  -- Python's `<`
  pub below : F → F → Bool
  -- `int(x)`
  pub trunc : F → ℕ
  pub is_finite : F → Bool
  pub is_negative : F → Bool
  pub is_zero : F → Bool
