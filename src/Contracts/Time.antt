-- ===== src/Contracts/Time.antt =====
-- internal/contracts/contracts.go: `validUTCTime`, and the part of Go's `time.Parse` at the layout
-- `time.RFC3339Nano` that it uses: an instant in UTC, in nanoseconds since the year 0.
-- A text that ends in an offset other than `Z` is no UTC time and is not read further.
use clausa_lens.Prelude.{
  ℕ, zero, suc, ◌+◌, ◌-◌, ◌*◌, ◌/◌, ◌%◌, String, ◌≡◌, refl, Bool, true, false, ◌&&◌, ◌||◌, not,
  Option, none, some, List, [], ◌∷◌, ltb, leb, nat_beq, is_some, codes, is_digit, if◌then◌else◌,
}

-- A number read off the front, and what is left of the text.
abbrev Read : Type 0
Read = Option (ℕ × List ℕ)

infixl 5 ◌>>=◌
abbrev ◌>>=◌ : {A B : Type 0} → Option A → (A → Option B) → Option B
none >>= f = none
some a >>= f = f a

-- `getnum(s, fixed)`: one or two digits, two if `fixed`.
getnum : Bool → List ℕ → Read
getnum fixed [] = none
getnum fixed (a ∷ []) = if is_digit a && not fixed then some (a - b'0', []) else none
getnum fixed (a ∷ b ∷ rest) =
    if is_digit a && is_digit b
    then some ((a - b'0') * 10 + (b - b'0'), rest)
    else if is_digit a && not fixed
    then some (a - b'0', b ∷ rest)
    else none

year_digits : List ℕ → Read
year_digits (a ∷ b ∷ c ∷ d ∷ rest) =
    if is_digit a && is_digit b && is_digit c && is_digit d
    then some ((((a - b'0') * 10 + (b - b'0')) * 10 + (c - b'0')) * 10 + (d - b'0'), rest)
    else none
year_digits _ = none

-- Nothing may follow the zone.
finish : List ℕ → Option ℕ → Option ℕ
finish [] t = t
finish (c ∷ rest) t = none

-- A separator of the layout.
expect : ℕ → List ℕ → Option (List ℕ)
expect c [] = none
expect c (x ∷ xs) = if nat_beq x c then some xs else none

-- The digits of a fraction in nanoseconds: the first nine count, and the rest are skipped.
fraction_digits : ℕ → ℕ → List ℕ → ℕ × List ℕ
fraction_digits unit n [] = (n, [])
fraction_digits unit n (c ∷ rest) =
    let longer = fraction_digits (unit / 10) (n + (c - b'0') * unit) rest in
    if is_digit c then longer else (n, c ∷ rest)

-- An optional fraction, after `.` or `,`.
fraction : List ℕ → ℕ × List ℕ
unfolding fraction_digits
fraction (p ∷ d ∷ rest) =
    if (nat_beq p b'.' || nat_beq p b',') && is_digit d
    then fraction_digits 100_000_000 0 (d ∷ rest)
    else (0, p ∷ d ∷ rest)
fraction s = (0, s)

is_leap : ℕ → Bool
is_leap y = nat_beq (y % 4) 0 && (not (nat_beq (y % 100) 0) || nat_beq (y % 400) 0)

days_in : ℕ → ℕ → ℕ
unfolding is_leap
days_in month year =
    if nat_beq month 2
    then (if is_leap year then 29 else 28)
    else if nat_beq month 4 || nat_beq month 6 || nat_beq month 9 || nat_beq month 11
    then 30
    else 31

days_before_month : ℕ → ℕ → ℕ
days_before_month zero year = 0
days_before_month (suc m) year =
    days_before_month m year + (if nat_beq m 0 then 0 else days_in m year)

days_before_year : ℕ → ℕ
days_before_year y = 365 * y + (y + 3) / 4 - (y + 99) / 100 + (y + 399) / 400

-- The instant, if every part is in its range.
instant : ℕ → ℕ → ℕ → ℕ → ℕ → ℕ → ℕ → Option ℕ
unfolding days_in days_before_month days_before_year
instant year month day hour minute second nanos =
    if leb 1 month
      && leb month 12
      && leb 1 day
      && leb day (days_in month year)
      && ltb hour 24
      && ltb minute 60
      && ltb second 60
    then some (
        ((((days_before_year year + days_before_month month year + (day - 1)) * 24 + hour) * 60
                + minute)
              * 60
            + second)
          * 1_000_000_000
        + nanos)
    else none

read_utc : List ℕ → Option ℕ
unfolding getnum year_digits expect fraction instant finish
read_utc s = do
  (year, s1) ← year_digits s
  s2 ← expect b'-' s1
  (month, s3) ← getnum true s2
  s4 ← expect b'-' s3
  (day, s5) ← getnum true s4
  s6 ← expect b'T' s5
  (hour, s7) ← getnum false s6
  s8 ← expect b':' s7
  (minute, s9) ← getnum true s8
  s10 ← expect b':' s9
  (second, s11) ← getnum true s10
  let (nanos, s12) = fraction s11
  rest ← expect b'Z' s12
  finish rest (instant year month day hour minute second nanos)

-- `t, err := time.Parse(time.RFC3339Nano, s)` for a UTC text.
unfoldable pub parse_time : String → Option ℕ
unfolding read_utc
parse_time s = read_utc (codes s)

unfoldable pub valid_utc_time : String → Bool
unfolding parse_time
valid_utc_time s = is_some (parse_time s)

-- The zero `time.Time`: January 1, year 1.
unfoldable pub zero_time : ℕ
unfolding days_before_year
zero_time = days_before_year 1 * 86_400_000_000_000

parses : parse_time "2026-08-29T10:00:00.5Z" ≡ parse_time "2026-08-29T10:00:00.500000000Z"
unfolding parse_time
parses = refl

epoch : parse_time "0001-01-01T00:00:00Z" ≡ some zero_time
unfolding parse_time zero_time
epoch = refl

no_offset : valid_utc_time "2026-08-29T10:00:00+02:00" ≡ false
unfolding valid_utc_time
no_offset = refl
