-- ===== src/Subscriber/Silence.antt =====
-- About src/allora_sdk/rpc_client/client_websocket_events.py: the two limits that a subscriber is built
-- with.
use allora_sdk_py.Prelude.{
  ◌≡◌, refl, subst, Bool, true, false, ◌&&◌, Option, none, some, Bool-cases, inl, inr,
}
use allora_sdk_py.Subscriber.State.{Host, Setup, silence_limit, with_limit, configure}
use allora_sdk_py.Subscriber.Loop.{is_silent}

-- a property of what is there, if anything is
abbrev WhenSome : {A : Type 0} → (A → Type 0) → Option A → Type 0
WhenSome P none = Unit
WhenSome P (some a) = P a

module _ (h : Host) (timeout : h.Secs) (heartbeat : Bool)
    (transitive : (a b c : h.Secs)
      → h.at_most a b ≡ true
      → h.at_most b c ≡ true
      → h.at_most a c ≡ true) where
  -- the limit is above the timeout
  abbrev IsAbove : Option h.Secs → Type 0
  IsAbove none = Unit
  IsAbove (some m) = h.at_most m timeout ≡ false

  silence_limit-IsAbove :
      (silence : Option h.Secs) → WhenSome IsAbove (silence_limit h timeout silence)
  unfolding silence_limit
  silence_limit-IsAbove none = tt
  silence_limit-IsAbove (some m) =
      elim (Bool-cases (h.at_most m (h.secs 0) && h.at_most (h.secs 0) m)) [
        | inl zero ↦ rw zero tt
        | inr positive ↦ elim (Bool-cases (h.at_most m timeout)) [
          | inl low ↦ rw (positive, low) tt
          | inr high ↦ rw (positive, high) high
        ]
      ]

  module _ (silent : h.Secs) (le : h.at_most silent timeout ≡ true) where
    abbrev Quiet : Setup h → Type 0
    Quiet c = is_silent c silent ≡ false

    with_limit-Quiet :
        (o : Option (Option h.Secs))
        → WhenSome IsAbove o
        → WhenSome Quiet (with_limit h timeout heartbeat o)
    unfolding with_limit is_silent
    with_limit-Quiet none p = tt
    with_limit-Quiet (some none) p = refl
    with_limit-Quiet (some (some m)) p = elim (Bool-cases (h.at_most m silent)) [
      | inl over ↦ absurd (clash (transitive m silent timeout over le) p)
      | inr under ↦ under
    ]
      where
        clash : {b : Bool} → b ≡ true → b ≡ false → ⊥
        clash p q = cc

    configure-Quiet :
        (silence : Option h.Secs) → WhenSome Quiet (configure timeout silence heartbeat)
    unfolding configure
    configure-Quiet silence = elim (Bool-cases (h.at_most timeout (h.secs 0))) [
      | inl bad ↦ rw bad tt
      | inr good ↦
          rw good
            (with_limit-Quiet (silence_limit h timeout silence) (silence_limit-IsAbove silence))
    ]

  -- If the order of seconds is transitive, no subscriber that can be built takes a silence of at
  -- most one receive timeout for a dead stream.
  pub configure-is_silent :
      (silence : Option h.Secs) (c : Setup h) (silent : h.Secs)
      → configure timeout silence heartbeat ≡ some c
      → h.at_most silent timeout ≡ true
      → is_silent c silent ≡ false
  configure-is_silent silence c silent e le =
      subst (WhenSome (Quiet silent le)) e (configure-Quiet silent le silence)
