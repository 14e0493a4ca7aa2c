-- ===== src/QueryIr/Values.antt =====
-- The values of type any in a query: what encoding/json decodes, and what Go code puts there.
use topbase.Prelude.{
  ℕ, suc, ◌+◌, ◌-◌, ◌%◌, Bool, true, false, not, ◌&&◌, List, [], ◌∷◌, ◌++◌, map, ◌==◌, ltb, length,
  if◌then◌else◌, is_empty, all,
}
use topbase.Text.{Text, codes, join}
use topbase.Text.Decimal.{show}

-- Go's int; `negsuc n` is -(n + 1).
pub data ℤ : Type 0 where
  pos : ℕ → ℤ
  negsuc : ℕ → ℤ

-- n < 0, n == 0.
abbrev pub is_neg : ℤ → Bool
is_neg (pos n) = false
is_neg (negsuc n) = true

abbrev pub is_zero : ℤ → Bool
is_zero (pos n) = n == 0
is_zero (negsuc n) = false

-- A finite float64 by its shortest decimal: the digits after the point stand in `fraction`.
pub record Number : Type 0 where
  pub negative : Bool
  pub whole : ℕ
  pub fraction : List ℕ

abbrev pub number_zero : Number → Bool
number_zero x = x.whole == 0 && all (λ d. d % 10 == 0) x.fraction

-- x < 0 and x > 0.
abbrev pub number_neg : Number → Bool
number_neg x = x.negative && not (number_zero x)

abbrev pub number_pos : Number → Bool
number_pos x = not x.negative && not (number_zero x)

-- strconv.FormatFloat(x, 'f', -1, 64).
unfoldable pub show_number : Number → Text
show_number x =
    (if x.negative then codes "-" else [])
    ++ (show x.whole
        ++ (if is_empty x.fraction then [] else codes "." ++ map (λ d. 48 + d % 10) x.fraction))

-- The zeros that digits begin with, what is left behind them, and what is left before those at the end.
abbrev pub leading_zeros : Text → ℕ
leading_zeros [] = 0
leading_zeros (c ∷ t) = let n = leading_zeros t in if c == b'0' then suc n else 0

abbrev pub without_zeros : Text → Text
without_zeros [] = []
without_zeros (c ∷ t) = if c == b'0' then without_zeros t else c ∷ t

abbrev pub without_last_zeros : Text → Text
without_last_zeros [] = []
without_last_zeros (c ∷ t) =
    let rest = without_last_zeros t in if is_empty rest && c == b'0' then [] else c ∷ rest

-- An exponent has two digits at least.
abbrev pub exponent : ℕ → Text
exponent e = if ltb e 10 then b'0' ∷ show e else show e

abbrev pub fraction_digits : Number → Text
fraction_digits x = map (λ d. 48 + d % 10) x.fraction

abbrev pub mantissa : Text → Text
mantissa [] = []
mantissa (c ∷ t) = c ∷ (if is_empty t then [] else b'.' ∷ t)

-- The digits of a large number and of a small one, without the sign.
abbrev pub sprint_size : Number → Text
sprint_size x =
    let whole = show x.whole in
    if ltb 21 (length whole)
    then mantissa (without_last_zeros (whole ++ fraction_digits x))
      ++ (codes "e+" ++ exponent (length whole - 1))
    else if x.whole == 0 && not (number_zero x) && ltb 3 (leading_zeros (fraction_digits x))
    then mantissa (without_last_zeros (without_zeros (fraction_digits x)))
      ++ (codes "e" ++ (b'-' ∷ exponent (leading_zeros (fraction_digits x) + 1)))
    else show_number (record x { negative = false })

-- fmt.Sprint(x) of a float64: with an exponent from 1e21 on and below 1e-4.
unfoldable pub sprint_number : Number → Text
unfolding show_number
sprint_number x = if x.negative then b'-' ∷ sprint_size x else sprint_size x

-- The dynamic types that the code tells apart: nil, string, float64 or int, bool, []any, []string
-- and map[string]any, whose entries stand in the order of their keys, as fmt prints them.
mutual
  pub data Value : Type 0 where
    null : Value
    str : Text → Value
    num : Number → Value
    bool : Bool → Value
    items : Values → Value
    texts : List Text → Value
    obj : Entries → Value

  pub data Values : Type 0 where
    nil : Values
    cons : Value → Values → Values

  pub data Entries : Type 0 where
    end : Entries
    entry : Text → Value → Entries → Entries

-- value == nil.
abbrev pub is_null : Value → Bool
is_null null = true
is_null _ = false

abbrev pub list_of : Values → List Value
list_of nil = []
list_of (cons v vs) = v ∷ list_of vs

-- fmt.Sprint.
unfoldable mutual
  pub sprint : Value → Text
  sprint null = codes "<nil>"
  sprint (str t) = t
  sprint (num x) = sprint_number x
  sprint (bool true) = codes "true"
  sprint (bool false) = codes "false"
  sprint (items vs) = codes "[" ++ (sprint_values vs ++ codes "]")
  sprint (texts ts) = codes "[" ++ (join (codes " ") ts ++ codes "]")
  sprint (obj es) = codes "map[" ++ (sprint_entries es ++ codes "]")

  pub sprint_values : Values → Text
  sprint_values nil = []
  sprint_values (cons v nil) = sprint v
  sprint_values (cons v (cons w vs)) = sprint v ++ (codes " " ++ sprint_values (cons w vs))

  pub sprint_entries : Entries → Text
  sprint_entries end = []
  sprint_entries (entry k v end) = k ++ (codes ":" ++ sprint v)
  sprint_entries (entry k v (entry l w es)) =
      k ++ (codes ":" ++ (sprint v ++ (codes " " ++ sprint_entries (entry l w es))))

-- value == nil || fmt.Sprint(value) == "".
unfoldable pub is_missing : Value → Bool
is_missing null = true
is_missing v = is_empty (sprint v)

-- FilterValues of validate.go.
unfoldable pub filter_values : Value → List Value
unfolding is_missing
filter_values (items vs) = list_of vs
filter_values (texts ts) = map str ts
filter_values v = if is_missing v then [] else v ∷ []
