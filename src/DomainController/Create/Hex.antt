-- ===== src/DomainController/Create/Hex.antt =====
-- `hex.EncodeToString` of Go's standard library, on bytes.
pub mod Decode
use Prim.Native.Char.{Char}
use mailgun_operator.Base.{ℕ, zero, suc, ◌/◌, ◌%◌, String, List, [], ◌∷◌}

abbrev pub digit_at : ℕ → List Char → Char
digit_at n [] = "0"
digit_at zero (c ∷ cs) = c
digit_at (suc n) (c ∷ cs) = digit_at n cs

abbrev pub hex_digits : List Char
hex_digits =
    "0" ∷ "1" ∷ "2" ∷ "3" ∷ "4" ∷ "5" ∷ "6" ∷ "7" ∷ "8" ∷ "9" ∷ "a" ∷ "b" ∷ "c" ∷ "d" ∷ "e" ∷ "f"
    ∷ []

unfoldable pub hex_encode : List ℕ → String
hex_encode [] = ""
hex_encode (b ∷ bytes) =
    String.◌∷◌ (digit_at (b / 16) hex_digits)
      (String.◌∷◌ (digit_at (b % 16) hex_digits) (hex_encode bytes))
