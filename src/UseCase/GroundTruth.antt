-- ===== src/UseCase/GroundTruth.antt =====
-- src/allora_sdk/worker/utils.py: `make_reputer_function`, which fetches the truth of a nonce and scores
-- inferences by it. Only the truth of the last nonce is kept.
pub mod Once
use allora_sdk_py.Prelude.{
  ℕ, ◌≡◌, refl, ap, ◌∙◌, Bool, true, false, ◌&&◌, Option, none, some, List, [], ◌∷◌, map, ◌==◌,
  if◌then◌else◌,
}
use allora_sdk_py.Tx.Errors.{Text, codes, text_eq}
use allora_sdk_py.Exec.{
  Result, ok, raise, stuck, Reply, answer, fault, Exec, outcome, pure, throw, gets, modify, ◌>>=◌,
  ◌>>◌,
}
use allora_sdk_py.Subscriber.Dict.{Dict}
use allora_sdk_py.UseCase.{UseFailure, failed, RunContext}

pub data Inference (F : Type 0) : Type 0 where
  one : F → Inference F
  several : Dict F → Inference F

pub record Scoring : Type 1 where
  pub World : Type 0
  pub F : Type 0
  pub Truth : Type 0
  pub gt_fn : RunContext → World → Reply UseFailure Truth × World
  -- `none` where it raises; `math.log10` of a loss and a tiny number likewise
  pub loss_fn : Truth → Inference F → Option F
  pub log10_of : F → Option F
  pub log_loss : Bool
  pub multi_output : Bool

pub record Scorer (h : Scoring) : Type 0 where
  pub world : h.World
  pub gt_cache : Option (RunContext × h.Truth)

unfoldable pub same_run : RunContext → RunContext → Bool
same_run a b = a.run_topic == b.run_topic && a.run_nonce == b.run_nonce

-- the value of the one label `y`
unfoldable pub only_y : {A : Type 0} → Dict A → Option A
unfolding text_eq
only_y ((label, x) ∷ []) = if text_eq label (codes "y") then some x else none
only_y _ = none

module _ (h : Scoring) where
  abbrev pub G : Type 0 → Type 0
  G = Exec (Scorer h) UseFailure

  unfoldable pub log_if : Bool → Option h.F → Option h.F
  log_if true (some x) = h.log10_of x
  log_if _ o = o

  unfoldable pub loss_of_y : h.Truth → Option h.F → Option h.F
  loss_of_y t none = none
  loss_of_y t (some x) = h.loss_fn t (one x)

  -- the loss of an inference, where nothing raises
  unfoldable pub loss_by : h.Truth → Dict h.F → Option h.F
  unfolding only_y log_if loss_of_y
  loss_by t d =
      log_if h.log_loss (if h.multi_output then h.loss_fn t (several d) else loss_of_y t (only_y d))

  -- the truth in the cache, where it is of this run
  unfoldable pub cached : RunContext → Option (RunContext × h.Truth) → Option h.Truth
  unfolding same_run
  cached c none = none
  cached c (some (run, t)) = if same_run run c then some t else none

  unfoldable pub fetch : RunContext → Option h.Truth → G h.Truth
  fetch c (some t) s = (ok t, s)
  fetch c none s = fetched (h.gt_fn c s.world)
    where
      fetched : Reply UseFailure h.Truth × h.World → Result UseFailure h.Truth × Scorer h
      fetched (answer t, w) = (ok t, record { world = w; gt_cache = some (c, t) })
      fetched (fault e, w) = (raise e, record s { world = w })

  unfoldable pub or_raise : Option h.F → G h.F
  or_raise none = throw failed
  or_raise (some x) = pure x

  -- `rep_func`
  unfoldable pub rep_func : RunContext → Dict h.F → G h.F
  unfolding cached fetch loss_by or_raise
  rep_func c d = gets (λ s. cached c s.gt_cache) >>= fetch c >>= λ t. or_raise (loss_by t d)

  -- the results of inferences that are scored one after the other
  unfoldable pub score_all :
      RunContext → List (Dict h.F) → Scorer h → List (Result UseFailure h.F) × Scorer h
  unfolding rep_func
  score_all c [] s = ([], s)
  score_all c (d ∷ ds) s =
      let (r, t) = rep_func c d s in let (rs, u) = score_all c ds t in (r ∷ rs, u)
