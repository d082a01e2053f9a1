-- ===== src/Subscriber/Lookup.antt =====
-- Lookups in a dict behind its changes.
use allora_sdk_py.Prelude.{
  ◌≡◌, refl, ap, ◌∙◌, subst, true, Option, none, some, [], ◌∷◌, Bool-cases, inl, inr, arith,
  is_some, if◌then◌else◌, ◌==◌, ==_iff,
}
use allora_sdk_py.Tx.Errors.{Text, text_eq}
use allora_sdk_py.Subscriber.Dict.{Dict, lookup, insert, update, has}

pub text_eq_refl : (t : Text) → text_eq t t ≡ true
unfolding text_eq
text_eq_refl [] = refl
text_eq_refl (c ∷ t) = ground (arith, text_eq_refl t)

pub text_eq→≡ : (t u : Text) → text_eq t u ≡ true → t ≡ u
unfolding text_eq
text_eq→≡ [] [] h = refl
text_eq→≡ [] (d ∷ u) h = absurd (ground arith)
text_eq→≡ (c ∷ t) [] h = absurd (ground arith)
text_eq→≡ (c ∷ t) (d ∷ u) h = elim (Bool-cases (c == d)) [
  | inl same ↦
      let tails : t ≡ u = text_eq→≡ t u (ground arith) in
      let heads : c ≡ d = (==_iff c d).0 same in ap (λ x. x ∷ t) heads ∙ ap (λ v. d ∷ v) tails
  | inr other ↦ absurd (ground arith)
]

abbrev pub map_option : {A B : Type 0} → (A → B) → Option A → Option B
map_option f none = none
map_option f (some a) = some (f a)

module _ {A : Type 0} where
  pub lookup-update :
      (k : Text) (f : A → A) (d : Dict A) → lookup k (update k f d) ≡ map_option f (lookup k d)
  unfolding lookup update
  lookup-update k f [] = refl
  lookup-update k f ((l, b) ∷ d) = elim (Bool-cases (text_eq k l)) [
    | inl same ↦ rw (same, same) refl
    | inr other ↦ rw (other, other) (lookup-update k f d)
  ]

  pub lookup-insert : (k : Text) (a : A) (d : Dict A) → lookup k (insert k a d) ≡ some a
  unfolding lookup insert
  lookup-insert k a [] = rw (text_eq_refl k) refl
  lookup-insert k a ((l, b) ∷ d) = elim (Bool-cases (text_eq k l)) [
    | inl same ↦ rw (same, same) refl
    | inr other ↦ rw (other, other) (lookup-insert k a d)
  ]

  -- what is there stays there
  pub has-insert : (j k : Text) (a : A) (d : Dict A) → has j d ≡ true → has j (insert k a d) ≡ true
  unfolding lookup insert
  has-insert j k a [] h = absurd (ground arith)
  has-insert j k a ((l, b) ∷ d) h = elim (Bool-cases (text_eq j l)) [
    | inl found ↦ elim (Bool-cases (text_eq k l)) [
      | inl same ↦ rw (same, found) refl
      | inr other ↦ rw (other, found) refl
    ]
    | inr missed ↦
        let later : has j d ≡ true =
          subst (λ c. is_some (if c then some b else lookup j d) ≡ true) missed h in
        elim (Bool-cases (text_eq k l)) [
          | inl same ↦ rw (same, missed) later
          | inr other ↦ rw (other, missed) (has-insert j k a d later)
        ]
  ]
