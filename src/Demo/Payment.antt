-- ===== src/Demo/Payment.antt =====
-- cmd/demo-payment/service/service.go: the payment simulator. Its sleep is the delay that the call
-- returns, in milliseconds; its events are not modelled.
use clausa_lens.Prelude.{ℕ, suc, String, ℤ, pos, ◌<ℤ◌, Result, ok, reject, ◌>>◌}

pub record Payment : Type 0 where
  pub latency_ms : ℤ
  pub attempts : ℕ

abbrev pub default_latency_ms : ℤ
default_latency_ms = pos 350

unfoldable pub reset : Payment → Payment
reset s = record { latency_ms = default_latency_ms; attempts = 0 }

unfoldable pub set_latency_ms : ℤ → Payment → Payment
set_latency_ms ms s = record s { latency_ms = ms }

-- The new state and the delay after which the attempt is approved.
unfoldable pub authorize : ℤ → Payment → Result String (Payment × ℤ)
authorize attempt s =
    reject (attempt <ℤ pos 1) "payment: attempt must be >= 1"
    >> ok (record s { attempts = suc s.attempts }, s.latency_ms)
