-- ===== src/Tx/Manager/Close.antt =====
-- About src/allora_sdk/rpc_client/tx_manager.py: the futures at `close`, whatever other code does while
-- it waits for the cancelled tasks.
use allora_sdk_py.Prelude.{
  ℕ, suc, ◌<◌, ◌≡◌, refl, ap, ◌∙◌, Bool, true, false, Option, none, some, List, [], ◌∷◌, ◌++◌, map,
  ◌==◌, is_some, arith, if◌then◌else◌, Option-cases, Bool-cases, inl, inr,
}
use allora_sdk_py.Exec.{Reply, answer, fault, Result, outcome, after}
use allora_sdk_py.Exec.Post.{Post}
use allora_sdk_py.Tx.Errors.{Exc}
use allora_sdk_py.Tx.Chain.{Chain}
use allora_sdk_py.Tx.State.{PendingTx, TxManager, Outcome, future_cancelled, resolve}
use allora_sdk_py.Tx.Manager.{
  InFlight, new_pending, add_pending, Happening, resolves, task_done, submits, touch, happen,
  happen_all, cancel_futures, cancel_tasks, gather, settle_snapshot, close,
}

abbrev pub among : ℕ → List ℕ → Bool
among id [] = false
among id (n ∷ ns) = if n == id then true else among id ns

among-append : (id : ℕ) (ns ms : List ℕ) → among id ns ≡ true → among id (ns ++ ms) ≡ true
among-append id [] ms h = ground arith
among-append id (n ∷ ns) ms h = ground (arith, among-append id ns ms)

module _ {ch : Chain} where
  -- the future of the transaction with an id, and whether there is one
  abbrev pub future : ℕ → List (PendingTx ch) → Option Outcome
  future id [] = none
  future id (p ∷ ps) = if p.parent_tx_id == id then p.final_future else future id ps

  abbrev pub is_known : ℕ → List (PendingTx ch) → Bool
  is_known id [] = false
  is_known id (p ∷ ps) = if p.parent_tx_id == id then true else is_known id ps

  -- every id that was given is below the next one
  abbrev pub IsBelow : ℕ → List (PendingTx ch) → Type 0
  IsBelow n [] = Unit
  IsBelow n (p ∷ ps) = (p.parent_tx_id < n) × IsBelow n ps

module _ {ch : Chain} (mgr : TxManager ch) where
  pub parent_tx_id-touch :
      (id : ℕ) (o : Outcome) (p : PendingTx ch) → (touch mgr id o p).parent_tx_id ≡ p.parent_tx_id
  unfolding touch resolve
  parent_tx_id-touch id o p = ground arith

  touch-done :
      (id : ℕ) (o x : Outcome) (p : PendingTx ch)
      → p.final_future ≡ some x
      → (touch mgr id o p).final_future ≡ some x
  unfolding touch resolve
  touch-done id o x p h = ground arith

  touch-same :
      (id : ℕ) (o : Outcome) (p : PendingTx ch)
      → (p.parent_tx_id == id) ≡ true
      → is_some (touch mgr id o p).final_future ≡ true
  unfolding touch resolve
  touch-same id o p h = ground arith

  abbrev touch_all : ℕ → Outcome → List (PendingTx ch) → List (PendingTx ch)
  touch_all j o ps = map (touch mgr j o) ps

  future-touch_all :
      (id j : ℕ) (o x : Outcome) (ps : List (PendingTx ch))
      → future id ps ≡ some x
      → future id (touch_all j o ps) ≡ some x
  future-touch_all id j o x [] h = h
  future-touch_all id j o x (p ∷ ps) h =
      ground (arith, parent_tx_id-touch j o p, touch-done j o x p, future-touch_all id j o x ps)

  future-touch_own :
      (id : ℕ) (o : Outcome) (ps : List (PendingTx ch))
      → is_known id ps ≡ true
      → is_some (future id (touch_all id o ps)) ≡ true
  future-touch_own id o [] h = ground arith
  future-touch_own id o (p ∷ ps) h =
      ground (arith, parent_tx_id-touch id o p, touch-same id o p, future-touch_own id o ps)

  is_known-touch_all :
      (id j : ℕ) (o : Outcome) (ps : List (PendingTx ch))
      → is_known id (touch_all j o ps) ≡ is_known id ps
  is_known-touch_all id j o [] = refl
  is_known-touch_all id j o (p ∷ ps) =
      ground (arith, parent_tx_id-touch j o p, is_known-touch_all id j o ps)

  IsBelow-touch_all :
      (n j : ℕ) (o : Outcome) (ps : List (PendingTx ch))
      → IsBelow n ps
      → IsBelow n (touch_all j o ps)
  IsBelow-touch_all n j o [] h = tt
  IsBelow-touch_all n j o (p ∷ ps) h =
      (omega (arith, parent_tx_id-touch j o p, h.0), IsBelow-touch_all n j o ps h.1)

  IsBelow-suc : (n : ℕ) (ps : List (PendingTx ch)) → IsBelow n ps → IsBelow (suc n) ps
  IsBelow-suc n [] h = tt
  IsBelow-suc n (p ∷ ps) h = (omega (arith, h.0), IsBelow-suc n ps h.1)

  known-lt : (id n : ℕ) (ps : List (PendingTx ch)) → IsBelow n ps → is_known id ps ≡ true → id < n
  known-lt id n [] b h = ground arith
  known-lt id n (p ∷ ps) b h = ground (arith, b.0, known-lt id n ps b.1)

  -- an object that is known among objects that are numbered
  abbrev Tracks : ℕ → InFlight ch → Type 0
  Tracks id reg = IsBelow reg.parent_tx_id reg.pendings × (is_known id reg.pendings ≡ true)

  happen-Tracks :
      (id : ℕ) (x : Happening ch) (reg : InFlight ch) → Tracks id reg → Tracks id (happen mgr x reg)
  unfolding happen add_pending new_pending
  happen-Tracks id (resolves j o) reg h = (
    IsBelow-touch_all reg.parent_tx_id j o reg.pendings h.0,
    is_known-touch_all id j o reg.pendings ∙ h.1,
  )
  happen-Tracks id (task_done j) reg h = h
  happen-Tracks id (submits u m f r t) reg h =
      ((omega arith, IsBelow-suc reg.parent_tx_id reg.pendings h.0), ground (arith, h.1))

  -- a future that is done keeps its outcome
  happen-done :
      (id : ℕ) (x : Happening ch) (o : Outcome) (reg : InFlight ch)
      → Tracks id reg
      → future id reg.pendings ≡ some o
      → future id (happen mgr x reg).pendings ≡ some o
  unfolding happen add_pending new_pending
  happen-done id (resolves j o') o reg h e = future-touch_all id j o' o reg.pendings e
  happen-done id (task_done j) o reg h e = e
  happen-done id (submits u m f r t) o reg h e =
      ground (arith, e, known-lt id reg.parent_tx_id reg.pendings h.0 h.1)

  pub happen-cancel_requested :
      (x : Happening ch) (reg : InFlight ch)
      → (happen mgr x reg).cancel_requested ≡ reg.cancel_requested
  unfolding happen add_pending
  happen-cancel_requested (resolves j o) reg = refl
  happen-cancel_requested (task_done j) reg = refl
  happen-cancel_requested (submits u m f r t) reg = refl

  -- what holds of one id while `close` waits, from the manager before
  record Waited (id : ℕ) (reg reg' : InFlight ch) : Type 0 where
    tracks : Tracks id reg'
    keeps : (o : Outcome) → future id reg.pendings ≡ some o → future id reg'.pendings ≡ some o
    requested : reg'.cancel_requested ≡ reg.cancel_requested

  happen_all-Waited :
      (id : ℕ) (xs : List (Happening ch)) (reg : InFlight ch)
      → Tracks id reg
      → Waited id reg (happen_all mgr xs reg)
  unfolding happen_all
  happen_all-Waited id [] reg h = record { tracks = h; keeps = λ o e. e; requested = refl }
  happen_all-Waited id (x ∷ xs) reg h =
      let rest = happen_all-Waited id xs (happen mgr x reg) (happen-Tracks id x reg h) in
      record {
        tracks = rest.tracks;
        keeps = λ o e. rest.keeps o (happen-done id x o reg h e);
        requested = rest.requested ∙ happen-cancel_requested x reg;
      }

  cancel_futures-done :
      (id : ℕ) (ids : List ℕ) (o : Outcome) (ps : List (PendingTx ch))
      → future id ps ≡ some o
      → future id (cancel_futures mgr ids ps) ≡ some o
  unfolding cancel_futures
  cancel_futures-done id [] o ps e = e
  cancel_futures-done id (j ∷ ids) o ps e =
      cancel_futures-done id ids o (touch_all j future_cancelled ps)
        (future-touch_all id j future_cancelled o ps e)

  -- the loop over the snapshot settles each of its futures
  cancel_futures-settles :
      (id : ℕ) (ids : List ℕ) (ps : List (PendingTx ch))
      → among id ids ≡ true
      → is_known id ps ≡ true
      → is_some (future id (cancel_futures mgr ids ps)) ≡ true
  unfolding cancel_futures
  cancel_futures-settles id [] ps m k = ground arith
  cancel_futures-settles id (j ∷ ids) ps m k = elim (Bool-cases (j == id)) [
    | inl same ↦ elim (Option-cases (future id (touch_all j future_cancelled ps))) [
      | inl e ↦ absurd (ground (arith, future-touch_own id future_cancelled ps k))
      | inr (o, e) ↦ rw (cancel_futures-done id ids o _ e) refl
    ]
    | inr other ↦
        cancel_futures-settles id ids (touch_all j future_cancelled ps) (ground arith)
          (is_known-touch_all id j future_cancelled ps ∙ k)
  ]

-- a future beside what it was before: done ones keep their outcome
abbrev pub Kept : Option Outcome → Option Outcome → Type 0
Kept none o = Unit
Kept (some x) o = o ≡ some x

-- the transaction with an id after `close` returned, from the manager before
pub record IsSettled {ch : Chain} (id : ℕ) (reg reg' : InFlight ch) : Type 0 where
  pub settled : is_some (future id reg'.pendings) ≡ true
  pub kept : Kept (future id reg.pendings) (future id reg'.pendings)
  pub asked : among id reg'.cancel_requested ≡ true
  pub emptied : reg'.inflight ≡ []

-- and after the wait of `close` was cut off
pub record IsAsked {ch : Chain} (id : ℕ) (reg reg' : InFlight ch) : Type 0 where
  pub kept : Kept (future id reg.pendings) (future id reg'.pendings)
  pub asked : among id reg'.cancel_requested ≡ true

module _ {ch : Chain} (mgr : TxManager ch) where
  Kept-intro : (a b : Option Outcome) → ((o : Outcome) → a ≡ some o → b ≡ some o) → Kept a b
  Kept-intro none b k = tt
  Kept-intro (some x) b k = k x refl

  abbrev Closes : ℕ → InFlight ch → Result Exc (Unit {0}) × InFlight ch → Type 0
  Closes id reg = Post ⊥ (λ _. IsAsked id reg) (λ _. IsSettled id reg)

  settle-Closes :
      (id : ℕ) (ids : List ℕ) (ending : Reply Exc (Unit {0})) (reg reg' : InFlight ch)
      → among id ids ≡ true
      → among id reg'.cancel_requested ≡ true
      → is_known id reg'.pendings ≡ true
      → ((o : Outcome) → future id reg.pendings ≡ some o → future id reg'.pendings ≡ some o)
      → Closes id reg (after (outcome ending, reg') (settle_snapshot mgr ids))
  unfolding settle_snapshot
  settle-Closes id ids (answer a) reg reg' m asked known keeps = record {
    settled = cancel_futures-settles mgr id ids reg'.pendings m known;
    kept = Kept-intro _ _ (λ o e. cancel_futures-done mgr id ids o reg'.pendings (keeps o e));
    asked = asked;
    emptied = refl;
  }
  settle-Closes id ids (fault x) reg reg' m asked known keeps = record {
    kept = Kept-intro _ _ keeps;
    asked = asked;
  }

  gathered-Closes :
      (id : ℕ) (ids : List ℕ) (during : List (Happening ch)) (ending : Reply Exc (Unit {0}))
      (reg : InFlight ch)
      → among id ids ≡ true
      → IsBelow reg.parent_tx_id reg.pendings
      → is_known id reg.pendings ≡ true
      → Closes id reg (
          after (gather mgr ids during ending (cancel_tasks mgr ids reg)) (settle_snapshot mgr ids))
  unfolding gather cancel_tasks
  gathered-Closes id [] during ending reg m b k = ground arith
  gathered-Closes id (j ∷ ids) during ending reg m b k =
      let start = cancel_tasks mgr (j ∷ ids) reg in
      let waited = happen_all-Waited mgr id during start (b, k) in
      settle-Closes id (j ∷ ids) ending reg (happen_all mgr during start) m
        (ap (among id) waited.requested ∙ among-append id (j ∷ ids) reg.cancel_requested m)
        waited.tracks.1 waited.keeps

-- Let the transactions that were made have ids below the next one, and take one of them that is in
-- flight when `close` is called. Then, whatever tasks and callers do while `close` waits, if the
-- wait returns, the future of the transaction is done, with the outcome that it had before where
-- it was done before, its task was asked to cancel, and nothing is in flight; if the wait is cut
-- off, a future that was done before keeps its outcome, and the task was asked to cancel.
pub close-IsSettled :
    {ch : Chain} (mgr : TxManager ch) (during : List (Happening ch)) (ending : Reply Exc (Unit {0}))
    (reg : InFlight ch) (id : ℕ)
    → IsBelow reg.parent_tx_id reg.pendings
    → among id reg.inflight ≡ true
    → is_known id reg.pendings ≡ true
    → Post ⊥ (λ _. IsAsked id reg) (λ _. IsSettled id reg) (close mgr during ending reg)
unfolding close
close-IsSettled mgr during ending reg id b m k =
    gathered-Closes mgr id reg.inflight during ending reg m b k
