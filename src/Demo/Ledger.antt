-- ===== src/Demo/Ledger.antt =====
-- cmd/demo-ledger/service/service.go: the ledger. Its lock makes each call atomic; the event that a
-- commit records is not modelled, and the recorder is taken not to fail.
use clausa_lens.Prelude.{
  ℕ, String, Bool, true, false, List, [], ◌∷◌, ◌++◌, length, string_eq, ℤ, pos, ◌<ℤ◌, Result, ok,
  reject, ◌>>◌, Dict, insert, has, ◌+++◌, if◌then◌else◌,
}
use clausa_lens.Checkout.Fixtures.{int_text}

pub record Ledger : Type 0 where
  pub dedup_enabled : Bool
  pub effects : List String
  pub first_effect_by_checkout : Dict String

unfoldable pub reset : Ledger → Ledger
reset s = record { dedup_enabled = false; effects = []; first_effect_by_checkout = [] }

unfoldable pub new_ledger : Ledger
new_ledger = record { dedup_enabled = false; effects = []; first_effect_by_checkout = [] }

unfoldable pub set_deduplication : Bool → Ledger → Ledger
set_deduplication enabled s = record s { dedup_enabled = enabled }

-- `%s-%d`
unfoldable pub effect_key : String → ℤ → String
effect_key checkout_id attempt = checkout_id +++ "-" +++ int_text attempt

pub record CommitRequest : Type 0 where
  pub checkout_id : String
  pub attempt : ℤ

pub record CommitResult : Type 0 where
  pub effect_id : String
  pub committed : Bool

-- What the call does under the lock: whether it commits, and the new state.
unfoldable pub commit_locked : String → String → Ledger → Ledger × Bool
commit_locked checkout_id effect_id s =
    if s.dedup_enabled
    then (if has checkout_id s.first_effect_by_checkout then (s, false) else (
      record s {
        first_effect_by_checkout = insert checkout_id effect_id s.first_effect_by_checkout;
        effects = s.effects ++ effect_id ∷ [];
      },
      true,
    ))
    else (record s { effects = s.effects ++ effect_id ∷ [] }, true)

unfoldable pub commit : CommitRequest → Ledger → Result String (Ledger × CommitResult)
commit r s =
    let effect_id = effect_key r.checkout_id r.attempt in
    let (s', done) = commit_locked r.checkout_id effect_id s in
    reject (r.attempt <ℤ pos 1) "ledger: attempt must be >= 1"
    >> ok (s', record { effect_id = effect_id; committed = done })

unfoldable pub committed_effect_count : Ledger → ℕ
committed_effect_count s = length s.effects
