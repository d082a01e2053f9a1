-- ===== src/Tx/Frame.antt =====
-- About src/allora_sdk/rpc_client/tx_manager.py: what the steps of a submission leave alone. A
-- frame is a predicate on the world, the future and the last fee; `Query` lists the calls that
-- only ask.
pub mod Steps
pub mod Fees
pub mod Handlers
pub mod Attempt
pub mod Runs
use allora_sdk_py.Prelude.{
  ℕ, Option, none, some, List, is_some, arith, ◌≡◌, refl, true, false, Bool-cases, inl, inr,
}
use allora_sdk_py.Exec.{Reply, answer, fault, outcome, pure, throw, ok, ◌>>=◌, ◌>>◌}
use allora_sdk_py.Exec.Post.{Post, Triple}
use allora_sdk_py.Tx.Errors.{Text, Exc}
use allora_sdk_py.Tx.Chain.{Chain}
use allora_sdk_py.Tx.State.{Session, M, Outcome, PendingTx, call, time, resolve}

-- The calls that ask the node, the clock or the signer, and send no transaction.
pub data Query (ch : Chain) : ch.World → ch.World → Type 0 where
  asked_now : (w : ch.World) → Query ch w (ch.now w).1
  slept : (d : ℕ) (w : ch.World) → Query ch w (ch.sleep d w).1
  asked_account : (w : ch.World) → Query ch w (ch.account w).1
  asked_info : (w : ch.World) → Query ch w (ch.account_info w).1
  asked_balance : (a : Text) (w : ch.World) → Query ch w (ch.balance a w).1
  asked_price : (w : ch.World) → Query ch w (ch.gas_price w).1
  asked_state : (w : ch.World) → Query ch w (ch.feemarket_state w).1
  asked_params : (w : ch.World) → Query ch w (ch.feemarket_params w).1
  signed :
      (m : ch.Messages) (u : Text) (g f q n : ℕ) (w : ch.World)
      → Query ch w (ch.sign m u g f q n w).1
  asked_tx : (h : Text) (w : ch.World) → Query ch w (ch.get_tx h w).1

abbrev pub Predicate : Chain → Type 1
Predicate ch = ch.World → Option Outcome → Option ℕ → Type 0

pub record IsFrame (ch : Chain) (I : Predicate ch) : Type 0 where
  pub query :
      (w w' : ch.World) (f : Option Outcome) (l : Option ℕ) → Query ch w w' → I w f l → I w' f l
  pub resolves : (w : ch.World) (o : Outcome) (l : Option ℕ) → I w none l → I w (some o) l

abbrev pub On : (ch : Chain) → Predicate ch → Session ch → Type 0
On ch I s = I s.world s.pending.final_future s.pending.last_fee

abbrev pub Keeps : (ch : Chain) → Predicate ch → {A : Type 0} → M ch A → Type 0
Keeps ch I m = Triple Unit (On ch I) (λ _. On ch I) (λ _. On ch I) m

module _ (ch : Chain) (I : Predicate ch) (frame : IsFrame ch I) where
  pub reply-Post :
      {A : Type 0} (r : Reply Exc A) (s : Session ch)
      → On ch I s
      → Post Unit (λ _. On ch I) (λ _. On ch I) (outcome r, s)
  reply-Post (answer a) s h = h
  reply-Post (fault e) s h = h

  -- A call that only asks.
  pub call-Keeps :
      {A : Type 0} (f : ch.World → Reply Exc A × ch.World)
      → ((w : ch.World) → Query ch w (f w).1)
      → Keeps ch I (call f)
  call-Keeps f asks = record {
    at = λ s h.
        reply-Post (f s.world).0 (record s { world = (f s.world).1 })
          (frame.query s.world (f s.world).1 s.pending.final_future s.pending.last_fee
            (asks s.world) h);
  }

  pub time-Keeps : Keeps ch I (time {ch = ch})
  time-Keeps = record {
    at = λ s h.
        frame.query s.world (ch.now s.world).1 s.pending.final_future s.pending.last_fee
          (asked_now s.world) h;
  }

  resolved-On :
      (o : Outcome) (w : ch.World) (f : Option Outcome) (l : Option ℕ) (p : PendingTx ch)
      → p.final_future ≡ f
      → p.last_fee ≡ l
      → I w f l
      → I w (resolve o p).final_future (resolve o p).last_fee
  unfolding resolve
  resolved-On o w none l p e g h = rw (e, g) (frame.resolves w o l h)
  resolved-On o w (some x) l p e g h = rw (e, g) h

  pub resolve-On :
      (o : Outcome) (s : Session ch)
      → On ch I s
      → On ch I (record s { pending = resolve o s.pending })
  resolve-On o s h =
      resolved-On o s.world s.pending.final_future s.pending.last_fee s.pending refl refl h
