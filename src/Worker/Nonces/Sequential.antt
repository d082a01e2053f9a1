-- ===== src/Worker/Nonces/Sequential.antt =====
-- About src/allora_sdk/worker/worker.py: `_select_sequential_nonce` beside the oldest candidate.
use allora_sdk_py.Prelude.{
  ℕ, ◌≤◌, ◌≡◌, refl, sym, ◌∙◌, Bool, true, false, Option, none, some, List, [], ◌∷◌, arith, elem,
  ◌↔◌, Option-cases, inl, inr,
}
use allora_sdk_py.OrderedSet.{TimestampOrderedSet, contains}
use allora_sdk_py.Worker.Nonces.{minimum, candidates, only_if_new, choose}
use allora_sdk_py.Worker.Nonces.Choice.{is_candidate, elem-set_add}

IsMinimum : Option ℕ → List ℕ → Type 0
IsMinimum none l = (n : ℕ) → elem n l ≡ false
IsMinimum (some k) l = (elem k l ≡ true) × ((n : ℕ) → elem n l ≡ true → k ≤ n)

minimum-cons :
    (n : ℕ) (l : List ℕ) (o : Option ℕ)
    → minimum l ≡ o
    → IsMinimum o l
    → IsMinimum (minimum (n ∷ l)) (n ∷ l)
unfolding minimum IsMinimum
minimum-cons n l none e h = rw e (ground arith, λ m g. ground (arith, h m))
minimum-cons n l (some k) e h = rw e (ground (arith, h.0), λ m g. ground (arith, h.1 m))

minimum-IsMinimum : (l : List ℕ) → IsMinimum (minimum l) l
minimum-IsMinimum [] = unfold minimum IsMinimum in (λ n. refl)
minimum-IsMinimum (n ∷ l) = minimum-cons n l (minimum l) refl (minimum-IsMinimum l)

module _ {T : Type 0} (s : TimestampOrderedSet T) where
  elem-candidates :
      (nonces : List ℕ) (event : Option ℕ) (n : ℕ)
      → elem n (candidates s nonces event) ≡ is_candidate s nonces event n
  unfolding candidates
  elem-candidates nonces none n = refl
  elem-candidates nonces (some e) n = elem-set_add n e nonces

  -- The nonce that may go: it is a candidate and new, and no candidate is older.
  abbrev pub IsOldest : List ℕ → Option ℕ → ℕ → Type 0
  IsOldest nonces event n =
      (is_candidate s nonces event n ≡ true)
      × ((contains n s ≡ false) × ((m : ℕ) → is_candidate s nonces event m ≡ true → n ≤ m))

  -- With one nonce at a time the cap and the order change nothing.
  choose-only_if_new :
      (most : ℕ) (nonces : List ℕ) (event : Option ℕ)
      → choose s true most nonces event ≡ only_if_new s (minimum (candidates s nonces event))
  unfolding choose
  choose-only_if_new most nonces event = elim (Option-cases (minimum (candidates s nonces event))) [
    | inl e ↦ rw e (ground arith)
    | inr (k, e) ↦ rw e (ground arith)
  ]

  elem-only_if_new :
      (test : ℕ → Bool) (l : List ℕ) (o : Option ℕ) (n : ℕ)
      → ((m : ℕ) → elem m l ≡ test m)
      → IsMinimum o l
      → (elem n (only_if_new s o) ≡ true)
        ↔ ((test n ≡ true) × ((contains n s ≡ false) × ((m : ℕ) → test m ≡ true → n ≤ m)))
  unfolding only_if_new IsMinimum
  elem-only_if_new test l none n same h = (λ e. ground arith, λ e. ground (arith, same n, h n, e.0))
  elem-only_if_new test l (some k) n same h = (
    λ e.
        let is_k : n ≡ k = ground arith in
        rw is_k (sym (same k) ∙ h.0, (ground arith, λ m g. h.1 m (same m ∙ g))),
    λ (here, (new, least)).
        let is_k : n ≡ k = omega (arith, h.1 n (same n ∙ here), least k (sym (same k) ∙ h.0)) in
        ground arith,
  )

  -- Where nonces depend on one another, a cycle submits a nonce if and only if it is open or the
  -- event's, no such nonce is older, and it was not submitted before.
  pub choose-IsOldest :
      (most : ℕ) (nonces : List ℕ) (event : Option ℕ) (n : ℕ)
      → (elem n (choose s true most nonces event) ≡ true) ↔ IsOldest nonces event n
  choose-IsOldest most nonces event n =
      let l : List ℕ = candidates s nonces event in
      rw (choose-only_if_new most nonces event) (
        elem-only_if_new (is_candidate s nonces event) l (minimum l) n
          (elem-candidates nonces event) (minimum-IsMinimum l))
