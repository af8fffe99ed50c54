-- ===== src/Configuration/Parse.antt =====
-- The parts of Go's standard library that the configuration uses: `strconv.ParseInt(s, 10, 0)`,
-- where an `int` has 64 bits, and `strings.Split(s, ",")[0]`.
use Prim.Native.Char.{Char, code}
use mailgun_operator.Base.{
  ℕ, ◌+◌, ◌-◌, ◌*◌, ◌^◌, String, Bool, true, false, Option, none, some, leb, ltb, nat_eq,
  if◌then◌else◌,
}
use mailgun_operator.Base.Int.{ℤ, pos, neg}

-- What a digit stands for.
digit_of : Char → Option ℕ
digit_of c =
    let place = code c - b'0' in
    if ltb (code c) b'0' then none else if ltb place 10 then some place else none

append_digit : Option ℕ → Option ℕ → Option ℕ
append_digit (some n) (some d) = some (10 * n + d)
append_digit _ _ = none

-- The loop over the text, from the value of what was read; `none` is a syntax error.
read_digits : Option ℕ → String → Option ℕ
unfolding digit_of append_digit
read_digits value String.[] = value
read_digits value (String.◌∷◌ c s) = read_digits (append_digit value (digit_of c)) s

-- At least one digit.
magnitude : String → Option ℕ
unfolding read_digits
magnitude String.[] = none
magnitude (String.◌∷◌ c s) = read_digits (digit_of c) s

-- The range tests of `ParseInt`.
in_range : Bool → Option ℕ → Option ℤ
in_range negative none = none
in_range false (some n) = if ltb n (2 ^ 63) then some (pos n) else none
in_range true (some n) = if leb n (2 ^ 63) then some (neg n) else none

unfoldable pub parse_int : String → Option ℤ
unfolding magnitude in_range
parse_int String.[] = none
parse_int (String.◌∷◌ c s) =
    if nat_eq (code c) b'-'
    then in_range true (magnitude s)
    else if nat_eq (code c) b'+'
    then in_range false (magnitude s)
    else in_range false (magnitude (String.◌∷◌ c s))

unfoldable pub before_comma : String → String
before_comma String.[] = ""
before_comma (String.◌∷◌ c s) =
    let rest = before_comma s in if nat_eq (code c) b',' then "" else String.◌∷◌ c rest
