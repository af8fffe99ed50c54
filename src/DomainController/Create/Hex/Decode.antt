-- ===== src/DomainController/Create/Hex/Decode.antt =====
-- Reading back what `hex.EncodeToString` writes.
use Prim.Native.Char.{Char, code}
use mailgun_operator.Base.{
  ℕ, zero, suc, ◌+◌, ◌-◌, ◌*◌, ◌/◌, ◌%◌, ◌<◌, ◌≡◌, refl, ap, String, List, [], ◌∷◌, arith, ltb,
  if◌then◌else◌,
}
use mailgun_operator.Base.Lists.{length}
use mailgun_operator.DomainController.Create.Hex.{digit_at, hex_digits, hex_encode}

-- What a hexadecimal digit stands for.
abbrev value_of : Char → ℕ
value_of c = if ltb (code c) b'a' then code c - b'0' else code c - 87

-- The bytes that a text of pairs of digits stands for.
abbrev pub hex_decode : String → List ℕ
hex_decode String.[] = []
hex_decode (String.◌∷◌ c String.[]) = []
hex_decode (String.◌∷◌ c (String.◌∷◌ d s)) = (value_of c * 16 + value_of d) ∷ hex_decode s

-- The characters of a text.
abbrev pub text_length : String → ℕ
text_length String.[] = 0
text_length (String.◌∷◌ c s) = suc (text_length s)

value_of-digit_at : (n : ℕ) → n < 16 → value_of (digit_at n hex_digits) ≡ n
value_of-digit_at zero h = refl
value_of-digit_at (suc zero) h = refl
value_of-digit_at (suc (suc zero)) h = refl
value_of-digit_at (suc (suc (suc zero))) h = refl
value_of-digit_at (suc (suc (suc (suc zero)))) h = refl
value_of-digit_at (suc (suc (suc (suc (suc zero))))) h = refl
value_of-digit_at (suc (suc (suc (suc (suc (suc zero)))))) h = refl
value_of-digit_at (suc (suc (suc (suc (suc (suc (suc zero))))))) h = refl
value_of-digit_at (suc (suc (suc (suc (suc (suc (suc (suc zero)))))))) h = refl
value_of-digit_at (suc (suc (suc (suc (suc (suc (suc (suc (suc zero))))))))) h = refl
value_of-digit_at (suc (suc (suc (suc (suc (suc (suc (suc (suc (suc zero)))))))))) h = refl
value_of-digit_at (suc (suc (suc (suc (suc (suc (suc (suc (suc (suc (suc zero))))))))))) h = refl
value_of-digit_at (suc (suc (suc (suc (suc (suc (suc (suc (suc (suc (suc (suc zero)))))))))))) h =
    refl
value_of-digit_at (suc (suc (suc (suc (suc (suc (suc (suc (suc (suc (suc (suc (suc zero)))))))))))))
      h =
    refl
value_of-digit_at
      (suc (suc (suc (suc (suc (suc (suc (suc (suc (suc (suc (suc (suc (suc zero)))))))))))))) h =
    refl
value_of-digit_at
      (suc (suc (suc (suc (suc (suc (suc (suc (suc (suc (suc (suc (suc (suc (suc zero)))))))))))))))
      h =
    refl
value_of-digit_at
      (suc
        (suc (suc (suc (suc (suc (suc (suc (suc (suc (suc (suc (suc (suc (suc (suc n))))))))))))))))
      h =
    absurd (omega arith)

high : (b : ℕ) → b < 256 → b / 16 < 16
high b h = omega arith

low : (b : ℕ) → b % 16 < 16
low b = omega arith

joined : (b : ℕ) → b / 16 * 16 + b % 16 ≡ b
joined b = omega arith

-- Every number is a byte.
abbrev pub Bytes : List ℕ → Type 0
Bytes [] = Unit
Bytes (b ∷ bytes) = (b < 256) × Bytes bytes

-- The encoding of bytes can be read back, so that no two of them share it.
pub hex_decode-hex_encode : (bytes : List ℕ) → Bytes bytes → hex_decode (hex_encode bytes) ≡ bytes
unfolding hex_encode
hex_decode-hex_encode [] h = refl
hex_decode-hex_encode (b ∷ bytes) (k, h) =
    rw (value_of-digit_at (b / 16) (high b k), value_of-digit_at (b % 16) (low b), joined b)
      (ap (λ l. b ∷ l) (hex_decode-hex_encode bytes h))

-- It has two characters for each byte.
pub text_length-hex_encode : (bytes : List ℕ) → text_length (hex_encode bytes) ≡ 2 * length bytes
unfolding hex_encode
text_length-hex_encode [] = refl
text_length-hex_encode (b ∷ bytes) = omega (arith, text_length-hex_encode bytes)
