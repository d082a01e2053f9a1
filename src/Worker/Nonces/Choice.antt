-- ===== src/Worker/Nonces/Choice.antt =====
-- About src/allora_sdk/worker/worker.py: the nonces that a cycle submits, as a set and in their
-- order.
use allora_sdk_py.Prelude.{
  ℕ, zero, suc, ◌-◌, max, ◌≤◌, ◌<◌, ◌≡◌, ◌≢◌, refl, sym, ap, ◌∙◌, Bool, true, false, Option, none,
  some, List, [], ◌∷◌, arith, ◌==◌, leb, ltb, length, drop, elem, if◌then◌else◌, Bool-cases,
  length-drop, inl, inr,
}
use allora_sdk_py.OrderedSet.{TimestampOrderedSet, contains}
use allora_sdk_py.Worker.Nonces.{
  set_add, set_of, insert, sorted, cap_nonces, is_new, select_new_nonces, max_unfulfilled_nonces,
  choose,
}

pub elem-set_add :
    (n m : ℕ) (l : List ℕ) → elem n (set_add m l) ≡ (if n == m then true else elem n l)
unfolding set_add
elem-set_add n m l = elim (Bool-cases (n == m)) [
  | inl same ↦ ground arith
  | inr other ↦ ground arith
]

elem-set_of :
    (keep : ℕ → Bool) (n : ℕ) (l : List ℕ)
    → elem n (set_of keep l) ≡ (if keep n then elem n l else false)
unfolding set_of
elem-set_of keep n [] = ground arith
elem-set_of keep n (m ∷ l) = ground (arith, elem-set_of keep n l, elem-set_add n m (set_of keep l))

elem-insert : (n m : ℕ) (l : List ℕ) → elem n (insert m l) ≡ (if n == m then true else elem n l)
unfolding insert
elem-insert n m [] = refl
elem-insert n m (k ∷ l) = ground (arith, elem-insert n m l)

elem-sorted : (n : ℕ) (l : List ℕ) → elem n (sorted l) ≡ elem n l
unfolding sorted
elem-sorted n [] = refl
elem-sorted n (m ∷ l) = ground (arith, elem-sorted n l, elem-insert n m (sorted l))

-- every later nonce is greater
abbrev pub IsIncreasing : List ℕ → Type 0
IsIncreasing [] = Unit
IsIncreasing (n ∷ l) = ((m : ℕ) → elem m l ≡ true → n < m) × IsIncreasing l

abbrev pub IsUnique : List ℕ → Type 0
IsUnique [] = Unit
IsUnique (n ∷ l) = (elem n l ≡ false) × IsUnique l

set_add-IsUnique : (n : ℕ) (l : List ℕ) → IsUnique l → IsUnique (set_add n l)
unfolding set_add
set_add-IsUnique n l h = elim (Bool-cases (elem n l)) [ inl e ↦ rw e h | inr e ↦ rw e (e, h) ]

set_of-IsUnique : (keep : ℕ → Bool) (l : List ℕ) → IsUnique (set_of keep l)
unfolding set_of
set_of-IsUnique keep [] = tt
set_of-IsUnique keep (n ∷ l) = elim (Bool-cases (keep n)) [
  | inl e ↦ rw e (set_add-IsUnique n (set_of keep l) (set_of-IsUnique keep l))
  | inr e ↦ rw e (set_of-IsUnique keep l)
]

insert-IsIncreasing :
    (n : ℕ) (l : List ℕ) → elem n l ≡ false → IsIncreasing l → IsIncreasing (insert n l)
unfolding insert
insert-IsIncreasing n [] new h = (λ m e. ground arith, tt)
insert-IsIncreasing n (k ∷ l) new h = elim (Bool-cases (leb n k)) [
  | inl le ↦ rw le (λ m e. ground (arith, h.0 m), h)
  | inr gt ↦
      rw gt (
        λ m e. ground (arith, h.0 m, elem-insert m n l),
        insert-IsIncreasing n l (ground arith) h.1,
      )
]

sorted-IsIncreasing : (l : List ℕ) → IsUnique l → IsIncreasing (sorted l)
unfolding sorted
sorted-IsIncreasing [] h = tt
sorted-IsIncreasing (n ∷ l) h =
    insert-IsIncreasing n (sorted l) (rw (elem-sorted n l) h.0) (sorted-IsIncreasing l h.1)

drop-IsIncreasing : (k : ℕ) (l : List ℕ) → IsIncreasing l → IsIncreasing (drop k l)
drop-IsIncreasing zero l h = h
drop-IsIncreasing (suc k) [] h = tt
drop-IsIncreasing (suc k) (n ∷ l) h = drop-IsIncreasing k l h.1

elem-drop : (k n : ℕ) (l : List ℕ) → elem n (drop k l) ≡ true → elem n l ≡ true
elem-drop zero n l h = h
elem-drop (suc k) n [] h = h
elem-drop (suc k) n (m ∷ l) h = ground (arith, elem-drop k n l h)

-- what is dropped is older than what is kept
drop-older :
    (k n m : ℕ) (l : List ℕ)
    → IsIncreasing l
    → elem n l ≡ true
    → elem n (drop k l) ≡ false
    → elem m (drop k l) ≡ true
    → n < m
drop-older zero n m l h e f g = ground arith
drop-older (suc k) n m [] h e f g = ground arith
drop-older (suc k) n m (j ∷ l) h e f g = elim (Bool-cases (n == j)) [
  | inl same ↦ ground (arith, h.0 m (elem-drop k m l g))
  | inr other ↦ drop-older k n m l h.1 (ground arith) f g
]

insert-length : (n : ℕ) (l : List ℕ) → length (insert n l) ≡ suc (length l)
unfolding insert
insert-length n [] = refl
insert-length n (k ∷ l) = ground (arith, insert-length n l)

module _ {T : Type 0} (s : TimestampOrderedSet T) where
  -- open or of the event
  abbrev pub is_candidate : List ℕ → Option ℕ → ℕ → Bool
  is_candidate nonces none n = elem n nonces
  is_candidate nonces (some e) n = if n == e then true else elem n nonces

  abbrev pub is_eligible : List ℕ → Option ℕ → ℕ → Bool
  is_eligible nonces event n = if contains n s then false else is_candidate nonces event n

  elem-select_new_nonces :
      (nonces : List ℕ) (event : Option ℕ) (n : ℕ)
      → elem n (select_new_nonces s nonces event) ≡ is_eligible nonces event n
  unfolding select_new_nonces
  elem-select_new_nonces nonces none n = ground (arith, elem-set_of (is_new s) n nonces)
  elem-select_new_nonces nonces (some e) n = elim (Bool-cases (n == e)) [
    | inl same ↦
        ground (arith, elem-set_of (is_new s) n nonces, elem-set_add n e (set_of (is_new s) nonces))
    | inr other ↦
        ground (arith, elem-set_of (is_new s) n nonces, elem-set_add n e (set_of (is_new s) nonces))
  ]

  select_new_nonces-IsUnique :
      (nonces : List ℕ) (event : Option ℕ) → IsUnique (select_new_nonces s nonces event)
  unfolding select_new_nonces
  select_new_nonces-IsUnique nonces none = set_of-IsUnique (is_new s) nonces
  select_new_nonces-IsUnique nonces (some e) = elim (Bool-cases (is_new s e)) [
    | inl new ↦
        rw new (set_add-IsUnique e (set_of (is_new s) nonces) (set_of-IsUnique (is_new s) nonces))
    | inr old ↦ rw old (set_of-IsUnique (is_new s) nonces)
  ]

  cap_nonces-drop : (most : ℕ) (l : List ℕ) → (k : ℕ) × (cap_nonces most l ≡ drop k l)
  unfolding cap_nonces
  cap_nonces-drop most l = elim (Bool-cases (ltb most (length l))) [
    | inl over ↦ elim (Bool-cases (most == 0)) [
      | inl all ↦ (0, rw (over, all) refl)
      | inr some_of ↦ (length l - most, rw (over, some_of) refl)
    ]
    | inr under ↦ (0, rw under refl)
  ]

  length-cap_nonces : (most : ℕ) (l : List ℕ) → most ≢ 0 → length (cap_nonces most l) ≤ most
  unfolding cap_nonces
  length-cap_nonces most l h = ground (arith, length-drop (length l - most) l)

  -- Where nonces are independent, the nonces of a cycle go out in increasing order, none of them
  -- twice.
  pub choose-IsIncreasing :
      (most : ℕ) (nonces : List ℕ) (event : Option ℕ)
      → IsIncreasing (choose s false most nonces event)
  unfolding choose
  choose-IsIncreasing most nonces event =
      let new_nonces : List ℕ = select_new_nonces s nonces event in
      let (k, same) = cap_nonces-drop most (sorted new_nonces) in
      rw same (
        drop-IsIncreasing k (sorted new_nonces)
          (sorted-IsIncreasing new_nonces (select_new_nonces-IsUnique nonces event)))

  -- Where nonces are independent, a nonce that a cycle submits is open, or is the event's, and was
  -- not submitted before.
  pub choose-is_eligible :
      (most : ℕ) (nonces : List ℕ) (event : Option ℕ) (n : ℕ)
      → elem n (choose s false most nonces event) ≡ true
      → is_eligible nonces event n ≡ true
  unfolding choose
  choose-is_eligible most nonces event n h =
      let new_nonces : List ℕ = select_new_nonces s nonces event in
      let (k, same) = cap_nonces-drop most (sorted new_nonces) in
      sym (elem-select_new_nonces nonces event n)
      ∙ sym (elem-sorted n new_nonces)
      ∙ elem-drop k n (sorted new_nonces) (ap (elem n) (sym same) ∙ h)

  -- Where nonces are independent, an eligible nonce that the cap leaves out of a cycle is older
  -- than every nonce of the cycle.
  pub choose-newest :
      (most : ℕ) (nonces : List ℕ) (event : Option ℕ) (n m : ℕ)
      → is_eligible nonces event n ≡ true
      → elem n (choose s false most nonces event) ≡ false
      → elem m (choose s false most nonces event) ≡ true
      → n < m
  unfolding choose
  choose-newest most nonces event n m h out chosen =
      let new_nonces : List ℕ = select_new_nonces s nonces event in
      let (k, same) = cap_nonces-drop most (sorted new_nonces) in
      drop-older k n m (sorted new_nonces)
        (sorted-IsIncreasing new_nonces (select_new_nonces-IsUnique nonces event))
        (elem-sorted n new_nonces ∙ elem-select_new_nonces nonces event n ∙ h)
        (ap (elem n) (sym same) ∙ out) (ap (elem m) (sym same) ∙ chosen)

  -- A cycle submits at most as many nonces as the worker's cap, whatever cap it was built with.
  pub length-choose :
      (sequential : Bool) (asked : ℕ) (nonces : List ℕ) (event : Option ℕ)
      → length (choose s sequential (max_unfulfilled_nonces asked) nonces event)
        ≤ max_unfulfilled_nonces asked
  unfolding max_unfulfilled_nonces choose
  length-choose sequential asked nonces event = length-cap_nonces (max 1 asked) _ (omega arith)
