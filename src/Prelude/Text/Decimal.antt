-- ===== src/Prelude/Text/Decimal.antt =====
-- The number at the end of a text: what `%d` prints there can be read back.
use Prim.Native.Nat.{ℕ, zero, suc, ◌+◌, ◌-◌, ◌*◌, ◌/◌, ◌%◌, ◌<◌}
use Prim.Native.String.{String}
use mathlib.Core.Path.{◌≡◌, refl, ap, ◌∙◌}
use mathlib.Core.Logic.{inl, inr}
use mathlib.Core.List.{List, [], ◌∷◌, ◌++◌}
use native.Mathlib.Omega.{arith}
use text.Mathlib.TextLemmas.{nil-append, cons-append}
use Prim.Native.Char.{code}
use clausa_lens.Prelude.Tests.{ltb, if◌then◌else◌, Bool-cases}
use clausa_lens.Prelude.Text.{codes, is_digit, decimal_text, decimal_digits, digit_text, ◌+++◌}

-- One more code point: a digit counts on, and anything else starts again.
abbrev digit_step : ℕ → ℕ → ℕ
digit_step n c = if is_digit c then n * 10 + (c - b'0') else 0

last_number : ℕ → List ℕ → ℕ
last_number n [] = n
last_number n (c ∷ cs) = last_number (digit_step n c) cs

-- The number that the digits at the end of a text are.
pub number_at_end : String → ℕ
number_at_end s = last_number 0 (codes s)

last_number-append :
    (n : ℕ) (xs ys : List ℕ) → last_number n (xs ++ ys) ≡ last_number (last_number n xs) ys
unfolding last_number
last_number-append n [] ys = refl
last_number-append n (x ∷ xs) ys = last_number-append (digit_step n x) xs ys

codes-append : (s t : String) → codes (s +++ t) ≡ codes s ++ codes t
codes-append String.[] t = ap codes (nil-append t)
codes-append (String.◌∷◌ c s) t =
    ap codes (cons-append c s t) ∙ ap (λ (cs : List ℕ). code c ∷ cs) (codes-append s t)

digit_text-value : (n d : ℕ) → d < 10 → last_number n (codes (digit_text d)) ≡ n * 10 + d
unfolding digit_text last_number
digit_text-value n zero h = omega arith
digit_text-value n (suc zero) h = omega arith
digit_text-value n (suc (suc zero)) h = omega arith
digit_text-value n (suc (suc (suc zero))) h = omega arith
digit_text-value n (suc (suc (suc (suc zero)))) h = omega arith
digit_text-value n (suc (suc (suc (suc (suc zero))))) h = omega arith
digit_text-value n (suc (suc (suc (suc (suc (suc zero)))))) h = omega arith
digit_text-value n (suc (suc (suc (suc (suc (suc (suc zero))))))) h = omega arith
digit_text-value n (suc (suc (suc (suc (suc (suc (suc (suc zero)))))))) h = omega arith
digit_text-value n (suc (suc (suc (suc (suc (suc (suc (suc (suc zero))))))))) h = omega arith
digit_text-value n (suc (suc (suc (suc (suc (suc (suc (suc (suc (suc d)))))))))) h =
    absurd (omega arith)

decimal_digits-value : (fuel n : ℕ) → n < fuel → last_number 0 (codes (decimal_digits fuel n)) ≡ n
unfolding decimal_digits
decimal_digits-value zero n h = absurd (omega arith)
decimal_digits-value (suc fuel) n h = elim (Bool-cases (ltb n 10)) [
  | inl small ↦ rw small (digit_text-value 0 n (ground arith) ∙ omega arith)
  | inr large ↦
      let front = decimal_digits fuel (n / 10) in
      let earlier = decimal_digits-value fuel (n / 10) (ground arith) in
      rw
        (
          large,
          codes-append front (digit_text (n % 10)),
          last_number-append 0 (codes front) (codes (digit_text (n % 10))),
          earlier,
        )
        (digit_text-value (n / 10) (n % 10) (omega arith) ∙ omega arith)
]

-- What `%d` prints after a dash is read back.
pub number_at_end-decimal_text :
    (s : String) (n : ℕ) → number_at_end (s +++ "-" +++ decimal_text n) ≡ n
unfolding number_at_end decimal_text last_number
number_at_end-decimal_text s n =
    let digits = decimal_digits (suc n) n in
    rw
      (
        codes-append s ("-" +++ digits),
        last_number-append 0 (codes s) (codes ("-" +++ digits)),
        codes-append "-" digits,
      )
      (decimal_digits-value (suc n) n (omega arith))
