-- ===== src/Capture/Ids.antt =====
-- internal/capture/ids.go: `IDGenerator`. The mutex makes each call atomic, so a call is one function
-- on the state. `event_seq` is a `uint64`.
use Prim.Native.Nat.{◌^◌}
use clausa_lens.Prelude.{
  ℕ, ◌+◌, ◌%◌, String, ℤ, pos, sub_ℕ, pos_part, neg_part, ◌+++◌, decimal_text,
}
use clausa_lens.Checkout.Fixtures.{int_text}

pub record IdGenerator : Type 0 where
  pub seed : ℤ
  pub next_seq : ℤ
  pub event_seq : ℕ

unfoldable pub reset_ids : IdGenerator → IdGenerator
reset_ids g = record g { next_seq = g.seed; event_seq = 0 }

unfoldable pub new_ids : ℤ → IdGenerator
unfolding reset_ids
new_ids seed = reset_ids (record { seed = seed; next_seq = pos 0; event_seq = 0 })

abbrev increment : ℤ → ℤ
increment n = sub_ℕ (pos_part n + 1) (neg_part n)

unfoldable pub next_checkout_seq : IdGenerator → IdGenerator × ℤ
next_checkout_seq g = (record g { next_seq = increment g.next_seq }, g.next_seq)

unfoldable pub logical_operation_id : ℤ → String
logical_operation_id n = "checkout-" +++ int_text n

unfoldable pub trace_id : ℤ → String
trace_id n = "trace-" +++ int_text n

unfoldable pub execution_id : ℤ → String
execution_id n = "exec-original-" +++ int_text n

unfoldable pub peek_next_logical_operation_id : IdGenerator → String
unfolding logical_operation_id
peek_next_logical_operation_id g = logical_operation_id g.next_seq

abbrev pub event_id_text : String → ℕ → String
event_id_text component n = "evt-" +++ component +++ "-" +++ decimal_text n

unfoldable pub next_event_id : String → IdGenerator → IdGenerator × String
next_event_id component g =
    let n = (g.event_seq + 1) % 2 ^ 64 in (record g { event_seq = n }, event_id_text component n)
