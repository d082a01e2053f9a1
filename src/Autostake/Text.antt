-- ===== src/Autostake/Text.antt =====
-- src/allora_sdk/worker/autostake.py: `normalize_actor_type`, on lists of code points.
use allora_sdk_py.Prelude.{
  ℕ, Bool, ◌&&◌, ◌||◌, Option, none, some, [], ◌∷◌, ◌++◌, ◌==◌, leb, length, drop, if◌then◌else◌,
}
use allora_sdk_py.Tx.Errors.{Text, codes, starts_with}

-- `str.isspace` on one character
unfoldable pub is_space : ℕ → Bool
is_space c =
    (leb 9 c && leb c 13)
    || (leb 28 c && leb c 32)
    || (c == 133)
    || (c == 160)
    || (c == 5760)
    || (leb 8192 c && leb c 8202)
    || (c == 8232)
    || (c == 8233)
    || (c == 8239)
    || (c == 8287)
    || (c == 12288)

unfoldable pub strip_left : (ℕ → Bool) → Text → Text
strip_left test [] = []
strip_left test (c ∷ s) = let rest = strip_left test s in if test c then rest else c ∷ s

unfoldable pub reverse_onto : Text → Text → Text
reverse_onto [] acc = acc
reverse_onto (c ∷ s) acc = reverse_onto s (c ∷ acc)

-- `str.strip`
unfoldable pub strip : (ℕ → Bool) → Text → Text
unfolding strip_left reverse_onto
strip test s = reverse_onto (strip_left test (reverse_onto (strip_left test s) [])) []

unfoldable pub removeprefix : Text → Text → Text
unfolding starts_with
removeprefix p s = if starts_with p s then drop (length p) s else s

-- `actor_type`: its `name`, if it has one that is a string, and its `str`
pub record ActorType : Type 0 where
  pub name : Option Text
  pub as_str : Text

unfoldable pub spelled : ActorType → Text
spelled a = elim a.name [ none ↦ a.as_str | some [] ↦ a.as_str | some (c ∷ n) ↦ c ∷ n ]

unfoldable pub with_type_prefix : Text → Text
unfolding starts_with
with_type_prefix [] = []
with_type_prefix (c ∷ s) =
    if starts_with (codes "ACTOR_TYPE_") (c ∷ s) then c ∷ s else codes "ACTOR_TYPE_" ++ c ∷ s

-- `normalize_actor_type`
unfoldable pub normalize_actor_type : ActorType → Text
unfolding is_space strip removeprefix spelled with_type_prefix
normalize_actor_type a =
    with_type_prefix
      (removeprefix (codes "ActorType.") (strip (λ c. c == b'"') (strip is_space (spelled a))))
