-- ===== src/Contracts/Values.antt =====
-- internal/contracts/contracts.go: a Go `any` that holds JSON, `validJSONValue`, `reflect.DeepEqual`,
-- and the integer tests of event attributes.
use Prim.Native.Nat.{◌^◌}
use clausa_lens.Prelude.{
  ℕ, zero, suc, ◌+◌, ◌-◌, ◌*◌, ◌/◌, ◌%◌, String, Bool, true, false, ◌&&◌, ◌||◌, not, Option, none,
  some, List, [], ◌∷◌, ltb, nat_beq, codes, is_digit, is_nil, if◌then◌else◌, ℤ, pos, negsuc, ◌<ℤ◌,
  ◌==◌, int_eq, string_eq,
}

-- `finite negative n bits` is ± n / 2 ^ bits.
pub data Float : Type 0 where
  nan : Float
  inf : Bool → Float
  finite : Bool → ℕ → ℕ → Float

mutual
  pub data Value : Type 0 where
    null : Value
    bool_val : Bool → Value
    str_val : String → Value
    -- int, int8, …, int64
    int_val : ℤ → Value
    -- uint, uint8, …, uint64
    uint_val : ℕ → Value
    float_val : Float → Value
    -- json.Number
    number : String → Value
    arr : Items → Value
    obj : Fields → Value
    -- a channel, a function or another type that JSON cannot hold
    unsupported : Value

  pub data Items : Type 0 where
    nil : Items
    cons : Value → Items → Items

  pub data Fields : Type 0 where
    end : Fields
    field : String → Value → Fields → Fields

find_field : String → Fields → Option Value
find_field k end = none
find_field k (field j v fs) = if j == k then some v else find_field k fs

count_fields : Fields → ℕ
count_fields end = 0
count_fields (field j v fs) = suc (count_fields fs)

float_equal : Float → Float → Bool
float_equal nan _ = false
float_equal (inf a) (inf b) = (a && b) || (not a && not b)
float_equal (finite a n p) (finite b m q) =
    nat_beq (n * 2 ^ q) (m * 2 ^ p) && (nat_beq n 0 || (a && b) || (not a && not b))
float_equal _ _ = false

-- `reflect.DeepEqual` on such values; the two sides of a map have the same keys.
mutual
  unfolding find_field count_fields float_equal

  equal_value : Value → Value → Bool
  equal_value null null = true
  equal_value (bool_val a) (bool_val b) = (a && b) || (not a && not b)
  equal_value (str_val a) (str_val b) = a == b
  equal_value (int_val a) (int_val b) = a == b
  equal_value (uint_val a) (uint_val b) = nat_beq a b
  equal_value (float_val a) (float_val b) = float_equal a b
  equal_value (number a) (number b) = a == b
  equal_value (arr xs) (arr ys) = equal_items xs ys
  equal_value (obj fs) (obj gs) = nat_beq (count_fields fs) (count_fields gs) && equal_fields fs gs
  equal_value _ _ = false

  equal_items : Items → Items → Bool
  equal_items nil nil = true
  equal_items (cons x xs) (cons y ys) = equal_value x y && equal_items xs ys
  equal_items _ _ = false

  equal_fields : Fields → Fields → Bool
  equal_fields end gs = true
  equal_fields (field k v fs) gs = elim (find_field k gs) [
    | none ↦ false
    | some w ↦ equal_value v w && equal_fields fs gs
  ]

unfoldable pub deep_equal : Value → Value → Bool
unfolding equal_value
deep_equal = equal_value

drop_digits : List ℕ → List ℕ
drop_digits [] = []
drop_digits (c ∷ cs) = if is_digit c then drop_digits cs else c ∷ cs

-- An exponent, or nothing, up to the end.
exponent : List ℕ → Bool
unfolding drop_digits
exponent (e ∷ s ∷ d ∷ cs) =
    (nat_beq e b'e' || nat_beq e b'E')
    && is_nil (drop_digits (if nat_beq s b'+' || nat_beq s b'-' then d ∷ cs else s ∷ d ∷ cs))
exponent (e ∷ d ∷ []) = (nat_beq e b'e' || nat_beq e b'E') && is_digit d
exponent (e ∷ []) = false
exponent [] = true

after_integer : List ℕ → Bool
unfolding drop_digits exponent
after_integer (p ∷ d ∷ cs) =
    if nat_beq p b'.' && is_digit d then exponent (drop_digits cs) else exponent (p ∷ d ∷ cs)
after_integer cs = exponent cs

unsigned_number : List ℕ → Bool
unfolding drop_digits after_integer
unsigned_number [] = false
unsigned_number (c ∷ cs) =
    if nat_beq c b'0' then after_integer cs else (is_digit c && after_integer (drop_digits cs))

-- The test that `json.Marshal` makes of a `json.Number`; an empty one is written as 0.
valid_number : List ℕ → Bool
unfolding unsigned_number
valid_number [] = true
valid_number (c ∷ cs) = if nat_beq c b'-' then unsigned_number cs else unsigned_number (c ∷ cs)

mutual
  unfolding valid_number

  marshals : Value → Bool
  marshals (float_val nan) = false
  marshals (float_val (inf s)) = false
  marshals (number s) = valid_number (codes s)
  marshals (arr xs) = marshals_items xs
  marshals (obj fs) = marshals_fields fs
  marshals unsupported = false
  marshals _ = true

  marshals_items : Items → Bool
  marshals_items nil = true
  marshals_items (cons x xs) = marshals x && marshals_items xs

  marshals_fields : Fields → Bool
  marshals_fields end = true
  marshals_fields (field k v fs) = marshals v && marshals_fields fs

unfoldable pub valid_json_value : Value → Bool
unfolding marshals
valid_json_value = marshals

-- A nil map is `none`.
unfoldable pub valid_json_object : Option Fields → Bool
unfolding marshals
valid_json_object none = false
valid_json_object (some fs) = marshals_fields fs

decimal : ℕ → List ℕ → Option ℕ
decimal n [] = some n
decimal n (c ∷ cs) =
    let longer = decimal (n * 10 + (c - b'0')) cs in if is_digit c then longer else none

-- `n.Int64()` of a `json.Number`: `strconv.ParseInt(s, 10, 64)`.
parse_int64 : List ℕ → Option ℤ
unfolding decimal
parse_int64 [] = none
parse_int64 (c ∷ cs) =
    if nat_beq c b'-'
    then negative cs
    else in_range (if nat_beq c b'+' then digits cs else digits (c ∷ cs))
  where
    digits : List ℕ → Option ℕ
    digits [] = none
    digits (d ∷ ds) = decimal 0 (d ∷ ds)

    in_range : Option ℕ → Option ℤ
    in_range none = none
    in_range (some n) = if ltb n (2 ^ 63) then some (pos n) else none

    below_zero : Option ℕ → Option ℤ
    below_zero none = none
    below_zero (some zero) = some (pos 0)
    below_zero (some (suc n)) = if ltb n (2 ^ 63) then some (negsuc n) else none

    negative : List ℕ → Option ℤ
    negative ds = below_zero (digits ds)

integral : ℕ → ℕ → Bool
integral n bits = nat_beq (n % 2 ^ bits) 0

unfoldable pub nonnegative_integer : Value → Bool
unfolding parse_int64 integral
nonnegative_integer (int_val n) = not (n <ℤ pos 0)
nonnegative_integer (uint_val n) = true
nonnegative_integer (float_val (finite negative n bits)) =
    (not negative || nat_beq n 0) && integral n bits
nonnegative_integer (number s) = elim (parse_int64 (codes s)) [
  | none ↦ false
  | some i ↦ not (i <ℤ pos 0)
]
nonnegative_integer _ = false

unfoldable pub positive_integer : Value → Bool
unfolding nonnegative_integer
positive_integer (int_val n) = pos 0 <ℤ n
positive_integer (uint_val n) = ltb 0 n
positive_integer (float_val (finite negative n bits)) =
    nonnegative_integer (float_val (finite negative n bits)) && (not negative && ltb 0 n)
positive_integer (number s) = elim (parse_int64 (codes s)) [ none ↦ false | some i ↦ pos 0 <ℤ i ]
positive_integer _ = false

-- `value.(string)` and `value.(bool)`
abbrev pub is_string : Value → Bool
is_string (str_val s) = true
is_string _ = false

abbrev pub is_bool : Value → Bool
is_bool (bool_val b) = true
is_bool _ = false

signed : Bool → ℕ → ℤ
signed negative zero = pos 0
signed false (suc n) = pos (suc n)
signed true (suc n) = negsuc n

-- `asInt` of internal/systempack/checkout/fixtures.go: an int, or a number that is one. The values
-- that an attribute can hold after validation fit an int, so no conversion overflows.
unfoldable pub as_int : Value → Option ℤ
unfolding parse_int64 integral signed
as_int (int_val n) = some n
as_int (float_val (finite negative n bits)) =
    if integral n bits then some (signed negative (n / 2 ^ bits)) else none
as_int (number s) = parse_int64 (codes s)
as_int _ = none
