-- ===== src/Worker/Cycle/Runs.antt =====
-- About src/allora_sdk/worker/worker.py: the submissions of a whole cycle, as pairs of nonce and
-- account sequence.
use allora_sdk_py.Prelude.{
  append_nil, append_assoc, ℕ, ◌+◌, ◌≡◌, refl, sym, ap, ◌∙◌, ◌||◌, Option, none, some, List, [],
  ◌∷◌, ◌++◌,
}
use allora_sdk_py.Exec.{Reply, answer, fault, outcome}
use allora_sdk_py.Exec.Post.{
  Post, Triple, Triple-pure, Triple-throw, Triple-if, Triple-bind, Triple-try, Triple-weaken,
}
use allora_sdk_py.Worker.Nonces.{choose}
use allora_sdk_py.Worker.Host.{Failure, Host, Setup, Worker, W, ask, stop, is_stopped, is_exception}
use allora_sdk_py.Worker.Quiet.{Asks, asked_account, asked_whitelist, asked_nonces}
use allora_sdk_py.Worker.Cycle.{
  submit, is_active, submit_all, submit_from, on_query_error, submit_new, run_cycle,
  maybe_submit_impl,
}
use allora_sdk_py.Worker.Cycle.Sequence.{submit-Post, numbered, IsPrefix}

module _ (h : Host) (setup : Setup) (log : h.World → List (ℕ × ℕ)) where
  -- What was submitted since `o`: a prefix of the nonces that are chosen for some answer of the
  -- nonces query, numbered from some base.
  abbrev pub HasRun : Option ℕ → Worker h → Worker h → Type 0
  HasRun event o s =
      (nonces : List ℕ) × ((base : ℕ) × ((made : List (ℕ × ℕ)) × (IsPrefix made (
              numbered base (
                choose o.submitted_nonces setup.requires_sequential_nonces setup.max_nonces nonces
                  event))
            × (log s.world ≡ log o.world ++ made))))

module _ (h : Host) (setup : Setup) (log : h.World → List (ℕ × ℕ))
    (quiet : (w w' : h.World) → Asks h w w' → log w' ≡ log w)
    (adds : (n q : ℕ) (w : h.World) → log (h.submit n q w).1 ≡ log w ++ (n, q) ∷ []) where
  abbrev Logged : List (ℕ × ℕ) → Worker h → Type 0
  Logged l s = log s.world ≡ l

  -- a prefix of `m` was submitted behind `l`
  abbrev Sent : List (ℕ × ℕ) → List (ℕ × ℕ) → Worker h → Type 0
  Sent l m s = (made : List (ℕ × ℕ)) × (IsPrefix made m × (log s.world ≡ l ++ made))

  none-Sent : (l m : List (ℕ × ℕ)) (s : Worker h) → Logged l s → Sent l m s
  none-Sent l m s p = ([], ((m, refl), p ∙ sym (append_nil l)))

  cons-Sent :
      (l m : List (ℕ × ℕ)) (x : ℕ × ℕ) (s : Worker h) → Sent (l ++ x ∷ []) m s → Sent l (x ∷ m) s
  cons-Sent l m x s (made, ((rest, same), p)) =
      (x ∷ made, ((rest, ap (λ r. x ∷ r) same), p ∙ append_assoc l (x ∷ []) made))

  submit-Logged :
      (n q : ℕ) (l : List (ℕ × ℕ))
      → Triple ⊥
          (Logged l)
          (λ _. Logged (l ++ (n, q) ∷ []))
          (λ _. Logged (l ++ (n, q) ∷ []))
          (submit {h = h} setup n q)
  submit-Logged n q l = record {
    at = λ s p.
        submit-Post h (λ w. log w ≡ l ++ (n, q) ∷ []) (λ w w' a e. quiet w w' a ∙ e) setup n q s
          (adds n q s.world ∙ ap (λ k. k ++ (n, q) ∷ []) p);
  }

  submit_all-Sent :
      (q : ℕ) (nonces : List ℕ) (l : List (ℕ × ℕ))
      → Triple ⊥
          (Logged l)
          (λ _. Sent l (numbered q nonces))
          (λ _. Sent l (numbered q nonces))
          (submit_all {h = h} setup q nonces)
  unfolding submit_all
  submit_all-Sent q [] l = Triple-pure tt (none-Sent l [])
  submit_all-Sent q (n ∷ nonces) l =
      let x : ℕ × ℕ = (n, q) in
      let m : List (ℕ × ℕ) = numbered (q + 1) nonces in
      let rest = submit_all-Sent (q + 1) nonces (l ++ x ∷ []) in
      record {
        at = λ s p.
            (Triple-if {Z = ⊥} {P = Logged l} {X = λ _. Sent l (x ∷ m)} {Q = λ _. Sent l (x ∷ m)}
                (is_active setup s)
                (Triple-bind (λ _. Logged (l ++ x ∷ []))
                  (Triple-weaken (submit-Logged n q l) (λ _ k. k)
                    (λ e t k. cons-Sent l m x t (none-Sent (l ++ x ∷ []) m t k)) (λ _ _ k. k))
                  (λ _.
                    Triple-weaken rest (λ _ k. k) (λ e t. cons-Sent l m x t)
                      (λ a t. cons-Sent l m x t)))
                (Triple-pure tt (none-Sent l (x ∷ m)))).at
              s p;
      }

  -- the world's log and the submitted nonces are those of `o`
  abbrev Same : Worker h → Worker h → Type 0
  Same o s = (log s.world ≡ log o.world) × (s.submitted_nonces ≡ o.submitted_nonces)

  idle : (event : Option ℕ) (o s : Worker h) → Same o s → HasRun h setup log event o s
  idle event o s p = ([], (0, none-Sent (log o.world) _ s p.0))

  abbrev Runs : Option ℕ → Worker h → {A : Type 0} → W h A → Type 0
  Runs event o m =
      Triple ⊥ (Same o) (λ _. HasRun h setup log event o) (λ _. HasRun h setup log event o) m

  outcome-Same :
      {A : Type 0} (o : Worker h) (r : Reply Failure A) (s : Worker h)
      → Same o s
      → Post ⊥ (λ _. Same o) (λ _. Same o) (outcome r, s)
  outcome-Same o (answer a) s p = p
  outcome-Same o (fault e) s p = p

  ask-Same :
      {A : Type 0} (o : Worker h) (f : h.World → Reply Failure A × h.World)
      → ((w : h.World) → Asks h w (f w).1)
      → Triple ⊥ (Same o) (λ _. Same o) (λ _. Same o) (ask f)
  ask-Same o f asks = record {
    at = λ s p.
        outcome-Same o (f s.world).0 (record s { world = (f s.world).1 })
          (quiet s.world (f s.world).1 (asks s.world) ∙ p.0, p.1);
  }

  abbrev chosen : Option ℕ → List ℕ → Worker h → List ℕ
  chosen event nonces s =
      choose s.submitted_nonces setup.requires_sequential_nonces setup.max_nonces nonces event

  submit_from-Post :
      (event : Option ℕ) (o s : Worker h) (nonces l : List ℕ) (base : Option ℕ)
      → l ≡ chosen event nonces o
      → Same o s
      → Post ⊥
          (λ _. HasRun h setup log event o)
          (λ _. HasRun h setup log event o)
          (submit_from setup l base s)
  unfolding submit_from
  submit_from-Post event o s nonces l none same p = idle event o s p
  submit_from-Post event o s nonces l (some base) same p = rw same (
      (Triple-weaken (submit_all-Sent base (chosen event nonces o) (log o.world)) (λ t k. k)
          (λ e t k. (nonces, (base, k))) (λ a t k. (nonces, (base, k)))).at
        s p.0)

  submit_new-Runs :
      (event : Option ℕ) (o : Worker h) (nonces : Option (List ℕ))
      → Runs event o (submit_new {h = h} setup event nonces)
  unfolding submit_new
  submit_new-Runs event o none = Triple-pure tt (idle event o)
  submit_new-Runs event o (some nonces) = record {
    at = λ s p.
        (Triple-bind (λ _. Same o)
            (Triple-weaken (ask-Same o h.account_info asked_account) (λ t k. k) (λ e. idle event o)
              (λ a t k. k))
            (λ base. record {
              at = λ t k.
                  submit_from-Post event o t nonces (chosen event nonces s) base
                    (ap
                      (λ u. choose u setup.requires_sequential_nonces setup.max_nonces nonces event)
                      p.1)
                    k;
            })).at
          s p;
  }

  on_query_error-Same :
      (o : Worker h) (e : Failure)
      → Triple ⊥ (Same o) (λ _. Same o) (λ _. Same o) (on_query_error {h = h} setup e)
  unfolding on_query_error
  on_query_error-Same o e =
      Triple-if (is_exception e) (Triple-pure _ (λ s p. p)) (Triple-throw e (λ s p. p))

  run_cycle-Runs : (event : Option ℕ) (o : Worker h) → Runs event o (run_cycle {h = h} setup event)
  unfolding run_cycle
  run_cycle-Runs event o =
      Triple-bind (λ _. Same o)
        (Triple-weaken
          (Triple-try (λ _. Same o)
            (Triple-bind (λ _. Same o) (ask-Same o h.get_unfulfilled_nonces asked_nonces)
              (λ l. Triple-pure (some l) (λ s p. p)))
            (on_query_error-Same o))
          (λ t k. k) (λ e. idle event o) (λ a t k. k))
        (submit_new-Runs event o)

  stop-Runs : (event : Option ℕ) (o : Worker h) → Runs event o (stop {h = h})
  unfolding stop
  stop-Runs event o = record {
    at = λ s p. idle event o (record s { stopped = s.stopped || h.has_ctx s.world }) p;
  }

  -- Let the log of the submissions be left by every other call and extended by a submission. Then
  -- a cycle ends, and whether it returns or raises, what it submitted is a prefix of the nonces
  -- that are chosen for some set of open nonces, in their order, with consecutive account
  -- sequences from one base.
  pub log-maybe_submit_impl :
      (event : Option ℕ) (s : Worker h)
      → Post ⊥
          (λ _. HasRun h setup log event s)
          (λ _. HasRun h setup log event s)
          (maybe_submit_impl setup event s)
  unfolding maybe_submit_impl
  log-maybe_submit_impl event s =
      (Triple-if {Z = ⊥} {P = Same s} {X = λ _. HasRun h setup log event s}
          {Q = λ _. HasRun h setup log event s} (is_stopped s) (Triple-pure tt (idle event s))
          (Triple-bind (λ _. Same s)
            (Triple-weaken (ask-Same s h.worker_is_whitelisted asked_whitelist) (λ t k. k)
              (λ e. idle event s) (λ a t k. k))
            (λ b. Triple-if b (run_cycle-Runs event s) (stop-Runs event s)))).at
        s (refl, refl)
