-- ===== src/DomainController/Create/Password.antt =====
-- The random password of a new domain.
use mailgun_operator.Base.{ℕ, ◌*◌, ◌≡◌, refl, String, List}
use mailgun_operator.Base.Lists.{length}
use mailgun_operator.Base.Exec.{next}
use mailgun_operator.Api.Meta.{ok}
use mailgun_operator.DomainController.Run.{DomainReconciler, Run}
use mailgun_operator.DomainController.Create.{random_hex}
use mailgun_operator.DomainController.Create.Hex.{hex_encode}
use mailgun_operator.DomainController.Create.Hex.Decode.{
  Bytes, hex_decode, text_length, hex_decode-hex_encode, text_length-hex_encode,
}

module _ {W Endpoint : Type 0} (r : DomainReconciler W Endpoint) where
  -- When the random bytes can be read, `RandomHex` returns a text with two characters for each
  -- byte, from which the bytes can be read back: no randomness is lost.
  pub random_hex_lem :
      (n : ℕ) (s : Run W Endpoint) (bytes : List ℕ) (w : W)
      → r.cluster.rand_read n s.world ≡ (ok bytes, w)
      → Bytes bytes
      → (password : String) × ((random_hex r n s).0 ≡ next password)
        × (hex_decode password ≡ bytes)
        × (text_length password ≡ 2 * length bytes)
  unfolding random_hex
  random_hex_lem n s bytes w g h =
      (hex_encode bytes, rw g refl, hex_decode-hex_encode bytes h, text_length-hex_encode bytes)
