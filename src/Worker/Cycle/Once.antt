-- ===== src/Worker/Cycle/Once.antt =====
-- About src/allora_sdk/worker/worker.py: the nonces of a cycle beside those that were submitted
-- before it.
use allora_sdk_py.Prelude.{
  ℕ, ◌+◌, ◌≡◌, subst, Bool, true, false, Option, List, [], ◌∷◌, ◌++◌, arith, elem, All, Bool-cases,
  inl, inr,
}
use allora_sdk_py.Exec.Post.{Post, Post-weaken}
use allora_sdk_py.OrderedSet.{TimestampOrderedSet, contains}
use allora_sdk_py.Worker.Nonces.{choose}
use allora_sdk_py.Worker.Nonces.Choice.{is_eligible, choose-is_eligible}
use allora_sdk_py.Worker.Nonces.Sequential.{choose-IsOldest}
use allora_sdk_py.Worker.Host.{Host, Setup, Worker}
use allora_sdk_py.Worker.Quiet.{Asks}
use allora_sdk_py.Worker.Cycle.{maybe_submit_impl}
use allora_sdk_py.Worker.Cycle.Sequence.{numbered}
use allora_sdk_py.Worker.Cycle.Runs.{HasRun, log-maybe_submit_impl}

module _ (Q : ℕ → Type 0) where
  elem-All : (l : List ℕ) → ((n : ℕ) → elem n l ≡ true → Q n) → All Q l
  elem-All [] f = tt
  elem-All (n ∷ l) f = (f n (ground arith), elem-All l (λ m e. f m (ground arith)))

  numbered-All : (q : ℕ) (l : List ℕ) → All Q l → All (λ p. Q p.0) (numbered q l)
  numbered-All q [] h = tt
  numbered-All q (n ∷ l) h = (h.0, numbered-All (q + 1) l h.1)

  prefix-All : (made rest : List (ℕ × ℕ)) → All (λ p. Q p.0) (made ++ rest) → All (λ p. Q p.0) made
  prefix-All [] rest h = tt
  prefix-All (x ∷ made) rest h = (h.0, prefix-All made rest h.1)

module _ {T : Type 0} (s : TimestampOrderedSet T) where
  abbrev IsNew : ℕ → Type 0
  IsNew n = contains n s ≡ false

  eligible-IsNew :
      (nonces : List ℕ) (event : Option ℕ) (n : ℕ) → is_eligible s nonces event n ≡ true → IsNew n
  eligible-IsNew nonces event n h = elim (Bool-cases (contains n s)) [
    | inl old ↦ ground (arith, old, h)
    | inr new ↦ new
  ]

  choose-IsNew :
      (sequential : Bool) (most : ℕ) (nonces : List ℕ) (event : Option ℕ) (n : ℕ)
      → elem n (choose s sequential most nonces event) ≡ true
      → IsNew n
  choose-IsNew true most nonces event n h = ((choose-IsOldest s most nonces event n).0 h).1.0
  choose-IsNew false most nonces event n h =
      eligible-IsNew nonces event n (choose-is_eligible s most nonces event n h)

-- what was submitted since `o` was new in `o`
abbrev pub HasNew : (h : Host) → (h.World → List (ℕ × ℕ)) → Worker h → Worker h → Type 0
HasNew h log o s =
    (made : List (ℕ × ℕ)) × (log s.world ≡ log o.world ++ made)
    × All (λ p. contains p.0 o.submitted_nonces ≡ false) made

module _ (h : Host) (setup : Setup) (log : h.World → List (ℕ × ℕ)) where
  run-HasNew : (event : Option ℕ) (o s : Worker h) → HasRun h setup log event o s → HasNew h log o s
  run-HasNew event o s (nonces, (base, (made, ((rest, same), p)))) =
      let l : List ℕ =
        choose o.submitted_nonces setup.requires_sequential_nonces setup.max_nonces nonces event in
      (
        made,
        p,
        prefix-All (IsNew o.submitted_nonces) made rest (
            subst (All (λ q. IsNew o.submitted_nonces q.0)) same (
              numbered-All (IsNew o.submitted_nonces) base l (
                elem-All (IsNew o.submitted_nonces) l (
                  choose-IsNew o.submitted_nonces setup.requires_sequential_nonces setup.max_nonces
                    nonces event)))),
      )

module _ (h : Host) (setup : Setup) (log : h.World → List (ℕ × ℕ))
    (quiet : (w w' : h.World) → Asks h w w' → log w' ≡ log w)
    (adds : (n q : ℕ) (w : h.World) → log (h.submit n q w).1 ≡ log w ++ (n, q) ∷ []) where
  -- Let the log of the submissions be left by every other call and extended by a submission. Then
  -- a cycle ends, and whether it returns or raises, no nonce that it submitted counted as
  -- submitted when it began.
  pub maybe_submit_impl-HasNew :
      (event : Option ℕ) (s : Worker h)
      → Post ⊥ (λ _. HasNew h log s) (λ _. HasNew h log s) (maybe_submit_impl setup event s)
  maybe_submit_impl-HasNew event s =
      Post-weaken ⊥ (λ _. HasRun h setup log event s) (λ _. HasNew h log s)
        (λ _. HasRun h setup log event s) (λ _. HasNew h log s) (maybe_submit_impl setup event s)
        (log-maybe_submit_impl h setup log quiet adds event s)
        (λ e t. run-HasNew h setup log event s t) (λ a t. run-HasNew h setup log event s t)
