-- ===== src/Tx/Manager/Forgotten.antt =====
-- About src/allora_sdk/rpc_client/tx_manager.py: the transactions that are submitted while `close` waits.
use allora_sdk_py.Prelude.{
  ℕ, ◌≤◌, ◌<◌, ◌≡◌, refl, ap, ◌∙◌, true, false, List, [], ◌∷◌, ◌++◌, map, ◌==◌, arith,
}
use allora_sdk_py.Exec.{Reply, answer}
use allora_sdk_py.Tx.Errors.{Exc}
use allora_sdk_py.Tx.Chain.{Chain}
use allora_sdk_py.Tx.State.{PendingTx, TxManager, Outcome, future_cancelled, resolve}
use allora_sdk_py.Tx.Manager.{
  InFlight, Happening, touch, happen, happen_all, cancel_futures, cancel_tasks, gather,
  settle_snapshot, close,
}
use allora_sdk_py.Tx.Manager.Close.{among, future, parent_tx_id-touch, happen-cancel_requested}

-- every id is below a bound
abbrev pub AllBelow : ℕ → List ℕ → Type 0
AllBelow n [] = Unit
AllBelow n (id ∷ ids) = (id < n) × AllBelow n ids

not-among : (id n : ℕ) (ids : List ℕ) → AllBelow n ids → n ≤ id → among id ids ≡ false
not-among id n [] b h = refl
not-among id n (j ∷ ids) b h = ground (arith, b.0, not-among id n ids b.1)

among-none :
    (id : ℕ) (ns ms : List ℕ)
    → among id ns ≡ false
    → among id ms ≡ false
    → among id (ns ++ ms) ≡ false
among-none id [] ms h k = k
among-none id (n ∷ ns) ms h k = ground (arith, among-none id ns ms)

module _ {ch : Chain} (mgr : TxManager ch) where
  touch-other :
      (id j : ℕ) (o : Outcome) (p : PendingTx ch)
      → j < id
      → (p.parent_tx_id == id) ≡ true
      → (touch mgr j o p).final_future ≡ p.final_future
  unfolding touch resolve
  touch-other id j o p h e = ground arith

  future-touch_other :
      (id j : ℕ) (o : Outcome) (ps : List (PendingTx ch))
      → j < id
      → future id (map (touch mgr j o) ps) ≡ future id ps
  future-touch_other id j o [] h = refl
  future-touch_other id j o (p ∷ ps) h =
      ground (
        arith,
        parent_tx_id-touch mgr j o p,
        touch-other id j o p h,
        future-touch_other id j o ps h,
      )

  future-cancel_futures :
      (id n : ℕ) (ids : List ℕ) (ps : List (PendingTx ch))
      → AllBelow n ids
      → n ≤ id
      → future id (cancel_futures mgr ids ps) ≡ future id ps
  unfolding cancel_futures
  future-cancel_futures id n [] ps b h = refl
  future-cancel_futures id n (j ∷ ids) ps b h =
      future-cancel_futures id n ids (map (touch mgr j future_cancelled) ps) b.1 h
      ∙ future-touch_other id j future_cancelled ps (omega (arith, b.0))

  -- the manager when the wait of `close` ends
  abbrev pub behind_gather : List (Happening ch) → InFlight ch → InFlight ch
  behind_gather during reg = happen_all mgr during (cancel_tasks mgr reg.inflight reg)

  close-behind_gather :
      (during : List (Happening ch)) (reg : InFlight ch) (j : ℕ) (ids : List ℕ)
      → reg.inflight ≡ j ∷ ids
      → (close mgr during (answer tt) reg).1
        ≡ (settle_snapshot mgr reg.inflight tt (behind_gather during reg)).1
  unfolding close gather settle_snapshot cancel_tasks
  close-behind_gather during reg j ids e = rw e refl

  close-nothing :
      (during : List (Happening ch)) (ending : Reply Exc (Unit {0})) (reg : InFlight ch)
      → reg.inflight ≡ []
      → ((close mgr during ending reg).1.pendings ≡ reg.pendings)
        × ((close mgr during ending reg).1.cancel_requested ≡ reg.cancel_requested)
  unfolding close gather settle_snapshot cancel_tasks cancel_futures
  close-nothing during ending reg e = rw e (refl, refl)

  cancel_requested-behind_gather :
      (xs : List (Happening ch)) (reg : InFlight ch)
      → (happen_all mgr xs reg).cancel_requested ≡ reg.cancel_requested
  unfolding happen_all
  cancel_requested-behind_gather [] reg = refl
  cancel_requested-behind_gather (x ∷ xs) reg =
      cancel_requested-behind_gather xs (happen mgr x reg) ∙ happen-cancel_requested mgr x reg

  -- the manager after two calls of `close`, of which the first was not cut off
  abbrev pub closed_twice :
      List (Happening ch) → List (Happening ch) → Reply Exc (Unit {0}) → InFlight ch → InFlight ch
  closed_twice during later ending reg =
      (close mgr later ending (close mgr during (answer tt) reg).1).1

  settled_snapshot-forgets :
      (id : ℕ) (reg reg' : InFlight ch)
      → AllBelow reg.parent_tx_id reg.inflight
      → reg.parent_tx_id ≤ id
      → future id (settle_snapshot mgr reg.inflight tt reg').1.pendings ≡ future id reg'.pendings
  unfolding settle_snapshot
  settled_snapshot-forgets id reg reg' b h =
      future-cancel_futures id reg.parent_tx_id reg.inflight reg'.pendings b h

  close-forgets :
      (during : List (Happening ch)) (reg : InFlight ch) (id j : ℕ) (ids : List ℕ)
      → reg.inflight ≡ j ∷ ids
      → AllBelow reg.parent_tx_id reg.inflight
      → AllBelow reg.parent_tx_id reg.cancel_requested
      → reg.parent_tx_id ≤ id
      → (future id (close mgr during (answer tt) reg).1.pendings
          ≡ future id (behind_gather during reg).pendings)
        × (among id (close mgr during (answer tt) reg).1.cancel_requested ≡ false)
        × ((close mgr during (answer tt) reg).1.inflight ≡ [])
  unfolding settle_snapshot cancel_tasks
  close-forgets during reg id j ids e b c h =
      let same = close-behind_gather during reg j ids e in
      let start = cancel_tasks mgr reg.inflight reg in
      (
        ap (λ r. future id r.pendings) same
            ∙ settled_snapshot-forgets id reg (behind_gather during reg) b h,
        ap (λ r. among id r.cancel_requested) same
            ∙ ap (among id) (cancel_requested-behind_gather during start)
            ∙ among-none id reg.inflight reg.cancel_requested
                (not-among id reg.parent_tx_id reg.inflight b h)
                (not-among id reg.parent_tx_id reg.cancel_requested c h),
        ap (λ r. r.inflight) same,
      )

-- Let a transaction be in flight, and the ids in flight and those asked to cancel be below the
-- next one. Then `close`, where its wait returns, forgets a transaction that is submitted while it
-- waits: after it and another `close`, the future of a later id is what it was when the first wait
-- ended, and neither of them asked its task to cancel.
pub closed_twice-forgets :
    {ch : Chain} (mgr : TxManager ch) (during later : List (Happening ch))
    (ending : Reply Exc (Unit {0})) (reg : InFlight ch) (id j : ℕ) (ids : List ℕ)
    → reg.inflight ≡ j ∷ ids
    → AllBelow reg.parent_tx_id reg.inflight
    → AllBelow reg.parent_tx_id reg.cancel_requested
    → reg.parent_tx_id ≤ id
    → (future id (closed_twice mgr during later ending reg).pendings
        ≡ future id (behind_gather mgr during reg).pendings)
      × (among id (closed_twice mgr during later ending reg).cancel_requested ≡ false)
closed_twice-forgets mgr during later ending reg id j ids e b c h =
    let (kept, unasked, emptied) = close-forgets mgr during reg id j ids e b c h in
    let (pendings, requested) = close-nothing mgr later ending _ emptied in
    (ap (future id) pendings ∙ kept, ap (among id) requested ∙ unasked)
