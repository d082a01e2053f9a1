-- ===== src/UseCase/Inferer/Throttle.antt =====
-- About src/allora_sdk/worker/inferer.py: how often the sanity check asks the chain.
use allora_sdk_py.Prelude.{◌≡◌, refl, ap, ◌∙◌, true, false, some, List}
use allora_sdk_py.Tx.Errors.{Text}
use allora_sdk_py.Exec.{Result, rescue, ok, answer, after, ◌>>◌}
use allora_sdk_py.UseCase.{UseFailure, ignore_failure}
use allora_sdk_py.UseCase.Predictor.{PredictorHost}
use allora_sdk_py.UseCase.Inferer.{
  SanityCheckConfig, Inferer, first_floats, is_throttled, refresh, sanity_check_submission,
}

module _ (h : PredictorHost) (c : SanityCheckConfig h) where
  -- the check behind a reading of the clock
  abbrev checked : Inferer h → h.Secs × h.staking.World → Result UseFailure (Unit {0}) × Inferer h
  checked s x =
      rescue
        (refresh h x.0 (is_throttled h c.throttle_interval x.0 s.sanity_cache)
          (record s { world = x.1 }))
        ignore_failure

  asks :
      (s : Inferer h) (now : h.Secs) (asked answered : h.staking.World) (found : List (List Text))
      → h.monotonic s.world ≡ (now, asked)
      → is_throttled h c.throttle_interval now s.sanity_cache ≡ false
      → h.get_latest_network_inferences asked ≡ (answer found, answered)
      → sanity_check_submission h c s
        ≡ (ok tt, record s { world = answered; sanity_cache = some (now, first_floats h found) })
  unfolding sanity_check_submission refresh
  asks s now asked answered found e fresh q =
      ap (checked s) e
      ∙ ap (λ b. rescue (refresh h now b (record s { world = asked })) ignore_failure) fresh
      ∙ rw q refl

  skips :
      (s : Inferer h) (now : h.Secs) (w : h.staking.World)
      → h.monotonic s.world ≡ (now, w)
      → is_throttled h c.throttle_interval now s.sanity_cache ≡ true
      → sanity_check_submission h c s ≡ (ok tt, record s { world = w })
  unfolding sanity_check_submission refresh
  skips s now w e young =
      ap (checked s) e
      ∙ ap (λ b. rescue (refresh h now b (record s { world = w })) ignore_failure) young

  -- Let a sanity check find no young cache and the chain answer it. Then a check that follows
  -- within the interval only reads the clock: both return, and the cache has what the chain
  -- answered first, with the time of the first check.
  pub sanity_check_submission-throttled :
      (s : Inferer h) (now later : h.Secs) (asked answered read_again : h.staking.World)
      (found : List (List Text))
      → h.monotonic s.world ≡ (now, asked)
      → is_throttled h c.throttle_interval now s.sanity_cache ≡ false
      → h.get_latest_network_inferences asked ≡ (answer found, answered)
      → h.monotonic answered ≡ (later, read_again)
      → h.below (h.minus later now) c.throttle_interval ≡ true
      → (sanity_check_submission h c >> sanity_check_submission h c) s
        ≡ (ok tt, record s { world = read_again; sanity_cache = some (now, first_floats h found) })
  unfolding is_throttled
  sanity_check_submission-throttled s now later asked answered read_again found e fresh q e2 young =
      ap (λ r. after r (λ _. sanity_check_submission h c))
        (asks s now asked answered found e fresh q)
      ∙ skips (record s { world = answered; sanity_cache = some (now, first_floats h found) }) later
          read_again e2 young
