-- ===== src/Worker/Cycle/Marks.antt =====
-- About src/allora_sdk/worker/worker.py: which answers of the use case make a nonce count as
-- submitted.
use allora_sdk_py.Prelude.{
  ℕ, ◌≡◌, Bool, true, false, ◌&&◌, Option, none, some, arith, ◌==◌, if◌then◌else◌,
}
use allora_sdk_py.OrderedSet.{contains}
use allora_sdk_py.OrderedSet.Lookup.{HasUniqueKeys, contains-add}
use allora_sdk_py.Worker.Host.{
  Submission, already_submitted, tx_error, tx_timeout, unknown_error, submitted, Host, Worker,
}
use allora_sdk_py.Worker.Cycle.{mark, note}

-- every answer but a timeout, and none at all, is final
abbrev pub is_final : Option Submission → Bool
is_final none = false
is_final (some tx_timeout) = false
is_final (some _) = true

module _ {h : Host} where
  contains-mark :
      (u n : ℕ) (s : Worker h)
      → HasUniqueKeys s.submitted_nonces.items
      → contains u (mark n s).1.submitted_nonces
        ≡ (if u == n then true else contains u s.submitted_nonces)
  unfolding mark
  contains-mark u n s k = contains-add u n (h.stamp s.world).0 s.submitted_nonces k

  -- If the submitted nonces have no double, a nonce is marked as submitted by every answer of the
  -- use case but a timeout and none, and no other nonce changes.
  pub contains-note :
      (u n : ℕ) (r : Option Submission) (s : Worker h)
      → HasUniqueKeys s.submitted_nonces.items
      → contains u (note n r s).1.submitted_nonces
        ≡ (if (u == n) && is_final r then true else contains u s.submitted_nonces)
  unfolding note
  contains-note u n none s k = ground arith
  contains-note u n (some already_submitted) s k = ground (arith, contains-mark u n s k)
  contains-note u n (some tx_error) s k = ground (arith, contains-mark u n s k)
  contains-note u n (some tx_timeout) s k = ground arith
  contains-note u n (some unknown_error) s k = ground (arith, contains-mark u n s k)
  contains-note u n (some submitted) s k = ground (arith, contains-mark u n s k)
