-- ===== src/Tx/Errors/Classes.antt =====
-- About src/allora_sdk/rpc_client/tx_manager.py: the classification of a message beside a search
-- for a phrase in a text.
use allora_sdk_py.Prelude.{
  ℕ, String, Bool, ◌||◌, ◌≡◌, ◌≢◌, refl, sym, ap, ◌∙◌, ◌↔◌, ◌⊎◌, true, some, [], ◌∷◌, ◌++◌, arith,
  Bool-cases, inl, inr,
}
use allora_sdk_py.Tx.Errors.{
  Text, codes, Exc, TxResponse, lower, starts_with, occurs, classify_error_from_message,
  classed_response, exception_from_tx_response, exception_from_simulation_error, is_retryable,
}

starts_with-append : (p s : Text) → starts_with p (p ++ s) ≡ true
unfolding starts_with
starts_with-append [] s = refl
starts_with-append (c ∷ p) s = ground (arith, starts_with-append p s)

starts_with-split : (p s : Text) → starts_with p s ≡ true → (post : Text) × (s ≡ p ++ post)
unfolding starts_with
starts_with-split [] s h = (s, refl)
starts_with-split (c ∷ p) [] h = ground arith
starts_with-split (c ∷ p) (d ∷ s) h =
    let (post, same) = starts_with-split p s (ground arith) in (post, ground (arith, same))

occurs-here : (p s : Text) → starts_with p s ≡ true → occurs p s ≡ true
unfolding occurs
occurs-here p [] h = h
occurs-here p (c ∷ s) h = ground arith

occurs-append : (p pre post : Text) → occurs p (pre ++ p ++ post) ≡ true
unfolding occurs
occurs-append p [] post = occurs-here p (p ++ post) (starts_with-append p post)
occurs-append p (c ∷ pre) post = ground (arith, occurs-append p pre post)

occurs-split :
    (p s : Text) → occurs p s ≡ true → (pre : Text) × (post : Text) × (s ≡ pre ++ p ++ post)
unfolding occurs
occurs-split p [] h = let (post, same) = starts_with-split p [] h in ([], post, same)
occurs-split p (c ∷ s) h = elim (Bool-cases (starts_with p (c ∷ s))) [
  | inl here ↦ let (post, same) = starts_with-split p (c ∷ s) here in ([], post, same)
  | inr later ↦
      let (pre, post, same) = occurs-split p s (ground arith) in
      (c ∷ pre, post, ap (λ r. c ∷ r) same)
]

-- a message holds a phrase between two texts, in any case of letters
abbrev pub Mentions : String → Text → Type 0
Mentions phrase msg = (pre : Text) × (post : Text) × (lower msg ≡ pre ++ codes phrase ++ post)

-- the three reasons to try again
abbrev pub IsTransient : Text → Type 0
IsTransient msg =
    Mentions "out of gas" msg
    ⊎ Mentions "account sequence mismatch" msg
    ⊎ Mentions "insufficient fees" msg

abbrev finds : String → Text → Bool
finds phrase msg = occurs (codes phrase) (lower msg)

Mentions-finds : (phrase : String) (msg : Text) → Mentions phrase msg → finds phrase msg ≡ true
Mentions-finds phrase msg (pre, post, same) = rw same (occurs-append (codes phrase) pre post)

finds_any : Text → Bool
finds_any msg =
    finds "out of gas" msg || finds "account sequence mismatch" msg || finds "insufficient fees" msg

finds_any-IsTransient : (msg : Text) → finds_any msg ≡ true → IsTransient msg
unfolding finds_any
finds_any-IsTransient msg h = elim (Bool-cases (finds "out of gas" msg)) [
  | inl first ↦ inl (occurs-split _ _ first)
  | inr neither ↦ elim (Bool-cases (finds "account sequence mismatch" msg)) [
    | inl second ↦ inr (inl (occurs-split _ _ second))
    | inr also ↦ inr (inr (occurs-split _ _ (ground arith)))
  ]
]

IsTransient-finds_any : (msg : Text) → IsTransient msg → finds_any msg ≡ true
unfolding finds_any
IsTransient-finds_any msg (inl m) = ground (arith, Mentions-finds "out of gas" msg m)
IsTransient-finds_any msg (inr (inl m)) =
    ground (arith, Mentions-finds "account sequence mismatch" msg m)
IsTransient-finds_any msg (inr (inr m)) = ground (arith, Mentions-finds "insufficient fees" msg m)

is_retryable-classed_response :
    (msg : Text) (resp : TxResponse)
    → is_retryable (classed_response (classify_error_from_message msg) resp) ≡ finds_any msg
unfolding is_retryable classed_response classify_error_from_message finds_any
is_retryable-classed_response msg resp = ground arith

is_retryable-simulation :
    (msg : Text) (value : ℕ)
    → is_retryable (exception_from_simulation_error msg value) ≡ finds_any msg
unfolding is_retryable exception_from_simulation_error classify_error_from_message finds_any
is_retryable-simulation msg value = ground arith

finds_any_iff : (msg : Text) (b : Bool) → b ≡ finds_any msg → (b ≡ true) ↔ IsTransient msg
finds_any_iff msg b e =
    (λ h. finds_any-IsTransient msg (sym e ∙ h), λ m. e ∙ IsTransient-finds_any msg m)

-- A failed response is an exception, which is retryable if and only if its log holds "out of gas",
-- "account sequence mismatch" or "insufficient fees" between two texts, in any case of letters;
-- and a simulation error with the same message is retryable for the same messages.
pub exception_from_tx_response-IsTransient :
    (resp : TxResponse) (value : ℕ)
    → resp.code ≢ 0
    → ((err : Exc) × (exception_from_tx_response resp ≡ some err)
        × ((is_retryable err ≡ true) ↔ IsTransient resp.raw_log))
      × ((is_retryable (exception_from_simulation_error resp.raw_log value) ≡ true)
          ↔ IsTransient resp.raw_log)
unfolding exception_from_tx_response
exception_from_tx_response-IsTransient resp value failed = (
  (
    classed_response (classify_error_from_message resp.raw_log) resp,
    ground arith,
    finds_any_iff resp.raw_log _ (is_retryable-classed_response resp.raw_log resp),
  ),
  finds_any_iff resp.raw_log _ (is_retryable-simulation resp.raw_log value),
)
