-- ===== src/UseCase/GroundTruth/Once.antt =====
-- About src/allora_sdk/worker/utils.py: how often the truth of a nonce is fetched.
use allora_sdk_py.Prelude.{◌≡◌, refl, ap, ◌∙◌, true, Option, none, some, List, [], ◌∷◌, map, arith}
use allora_sdk_py.Exec.{Result, ok, raise, answer, ◌>>=◌}
use allora_sdk_py.Subscriber.Dict.{Dict}
use allora_sdk_py.UseCase.{UseFailure, failed, RunContext}
use allora_sdk_py.UseCase.GroundTruth.{
  Scoring, Scorer, same_run, cached, fetch, or_raise, loss_by, rep_func, score_all,
}

module _ (h : Scoring) (c : RunContext) (t : h.Truth) where
  -- the loss, or the exception of an inference that has none
  abbrev pub scored : Option h.F → Result UseFailure h.F
  scored none = raise failed
  scored (some x) = ok x

  scored-or_raise : (o : Option h.F) (s : Scorer h) → or_raise h o s ≡ (scored o, s)
  unfolding or_raise
  scored-or_raise none s = refl
  scored-or_raise (some x) s = refl

  same_run_refl : (c : RunContext) → same_run c c ≡ true
  unfolding same_run
  same_run_refl c = ground arith

  cached-own : cached h c (some (c, t)) ≡ some t
  unfolding cached
  cached-own = rw (same_run_refl c) refl

  -- with the truth in the cache, nothing is fetched
  rep_func-cached :
      (d : Dict h.F) (s : Scorer h)
      → s.gt_cache ≡ some (c, t)
      → rep_func h c d s ≡ (scored (loss_by h t d), s)
  unfolding rep_func fetch
  rep_func-cached d s e =
      ap (λ o. (fetch h c o >>= λ x. or_raise h (loss_by h x d)) s) (ap (cached h c) e ∙ cached-own)
      ∙ scored-or_raise (loss_by h t d) s

  score_all-cached :
      (ds : List (Dict h.F)) (s : Scorer h)
      → s.gt_cache ≡ some (c, t)
      → score_all h c ds s ≡ (map (λ d. scored (loss_by h t d)) ds, s)
  unfolding score_all
  score_all-cached [] s e = refl
  score_all-cached (d ∷ ds) s e = rw (rep_func-cached d s e) (rw (score_all-cached ds s e) refl)

  -- If the truth of a topic and nonce is not cached and fetching it answers, then scoring any
  -- inferences of that nonce one after the other, at least one, fetches it once, and each result
  -- is the loss by that truth, or the exception of an inference that has none.
  pub score_all-once :
      (d : Dict h.F) (ds : List (Dict h.F)) (s : Scorer h) (w : h.World)
      → cached h c s.gt_cache ≡ none
      → h.gt_fn c s.world ≡ (answer t, w)
      → score_all h c (d ∷ ds) s
        ≡ (map (λ x. scored (loss_by h t x)) (d ∷ ds), record { world = w; gt_cache = some (c, t) })
  unfolding score_all rep_func fetch
  score_all-once d ds s w missed e =
      rw (missed, e, scored-or_raise (loss_by h t d) (record { world = w; gt_cache = some (c, t) }))
        (rw (score_all-cached ds (record { world = w; gt_cache = some (c, t) }) refl) refl)
