-- ===== src/UseCase/Reputer/Stake.antt =====
-- About src/allora_sdk/worker/reputer.py: the stake behind `_maybe_stake`.
use allora_sdk_py.Prelude.{
  ℕ, zero, suc, ◌+◌, ◌-◌, max, ◌≡◌, refl, sym, ap, Option, none, some, get_or, [], ◌∷◌, leb, arith,
  Bool-cases, inl, inr,
}
use allora_sdk_py.Tx.Errors.{Text, TxResponse}
use allora_sdk_py.Exec.{Result, ok, answer}
use allora_sdk_py.Exec.Post.{Post}
use allora_sdk_py.UseCase.{UseFailure}
use allora_sdk_py.UseCase.Reputer.{
  ReputerHost, Reputer, stake_of, current_stake, top_up, stake_to, maybe_stake,
}

-- the chain's own record of the stake: the query tells it as a text that reads back, and an addition
-- is accepted and raises it by its amount
pub record IsLedger (h : ReputerHost) (stake : h.World → ℕ) : Type 0 where
  pub text_of : ℕ → Text
  pub reads : (n : ℕ) (c : ℕ) (t : Text) → text_of n ≡ c ∷ t → h.int_of (c ∷ t) ≡ some n
  pub empty : (n : ℕ) → text_of n ≡ [] → n ≡ 0
  pub told : (w : h.World) → (h.get_stake w).0 ≡ answer (text_of (stake w))
  pub left : (w : h.World) → stake (h.get_stake w).1 ≡ stake w
  pub response : TxResponse
  pub accepted : (amount : ℕ) (w : h.World) → (h.add_stake amount w).0 ≡ answer response
  pub raised : (amount : ℕ) (w : h.World) → stake (h.add_stake amount w).1 ≡ stake w + amount

module _ (h : ReputerHost) (stake : h.World → ℕ) (ledger : IsLedger h stake) where
  -- what a text of the stake reads as
  stake_of-told :
      (n : ℕ) (t : Text) (w : h.World) → ledger.text_of n ≡ t → stake_of h t w ≡ (ok n, w)
  unfolding stake_of
  stake_of-told n [] w e = ap (λ k. (ok k, w)) (sym (ledger.empty n e))
  stake_of-told n (c ∷ t) w e = rw (ledger.reads n c t e) refl

  current_stake-told : (w : h.World) → current_stake h w ≡ (ok (some (stake w)), (h.get_stake w).1)
  unfolding current_stake
  current_stake-told w =
      rw (ledger.told w, stake_of-told (stake w) (ledger.text_of (stake w)) (h.get_stake w).1 refl)
        refl

  -- the stake behind an action that returns
  abbrev Ends : ℕ → Result UseFailure (Unit {0}) × h.World → Type 0
  Ends n = Post ⊥ (λ _ _. ⊥) (λ _ w. stake w ≡ n)

  top_up-Ends : (m n : ℕ) (w : h.World) → stake w ≡ n → Ends (max m n) (top_up h m (some n) w)
  unfolding top_up
  top_up-Ends m n w e = elim (Bool-cases (leb m n)) [
    | inl enough ↦ rw enough (ground arith)
    | inr low ↦ rw (low, ledger.accepted (m - n) w) (ground (arith, ledger.raised (m - n) w))
  ]

  stake_to-Ends : (o : Option ℕ) (w : h.World) → Ends (max (get_or o 0) (stake w)) (stake_to h o w)
  unfolding stake_to
  stake_to-Ends none w = omega arith
  stake_to-Ends (some zero) w = omega arith
  stake_to-Ends (some (suc m)) w =
      rw (current_stake-told w) (top_up-Ends (suc m) (stake w) (h.get_stake w).1 (ledger.left w))

  -- If the query tells the stake as a text that reads back, and every addition is accepted and
  -- raises the stake by its amount, then `_maybe_stake` returns, and the stake is the greater of
  -- what it was and the minimum of the reputer, where it has one.
  pub maybe_stake-Ends :
      (r : Reputer h) (w : h.World)
      → Post ⊥
          (λ _ _. ⊥)
          (λ _ v. stake v ≡ max (get_or r.min_stake 0) (stake w))
          (maybe_stake h r w)
  unfolding maybe_stake
  maybe_stake-Ends r w = stake_to-Ends r.min_stake w
