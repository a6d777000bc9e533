-- ===== src/Oauth/Crypter.antt =====
-- The protection of the upstream refresh token, cmd/mcp-remote/crypto.go. A call of a crypter is
-- `none` on an error.
use buildpulse_mcp.Common.{
  ◌≡◌, refl, Text, is_empty, Option, none, some, bind, Option-cases, inl, inr, arith, if◌then◌else◌,
}
use buildpulse_mcp.Library.{Library}

pub record Crypter : Type 0 where
  pub encrypt : Text → Option Text
  pub decrypt : Text → Option Text

-- The KMS service's Encrypt and Decrypt under one key; `none` is an error.
pub record Kms : Type 0 where
  pub encrypt : Text → Option Text
  pub decrypt : Text → Option Text

module _ (lib : Library) where
  unfoldable pub kms_encrypt : Kms → Text → Option Text
  kms_encrypt kms plaintext = bind (kms.encrypt plaintext) (λ blob. some (lib.base64_std blob))

  unfoldable pub kms_decrypt : Kms → Text → Option Text
  kms_decrypt kms ciphertext = bind (lib.base64_std_decode ciphertext) kms.decrypt

  unfoldable pub plaintext_encrypt : Text → Option Text
  plaintext_encrypt plaintext = some (lib.base64_std plaintext)

  unfoldable pub plaintext_decrypt : Text → Option Text
  plaintext_decrypt ciphertext = lib.base64_std_decode ciphertext

  abbrev pub kms_crypter : Kms → Crypter
  kms_crypter kms = record { encrypt = kms_encrypt kms; decrypt = kms_decrypt kms }

  abbrev pub plaintext_crypter : Crypter
  plaintext_crypter = record { encrypt = plaintext_encrypt; decrypt = plaintext_decrypt }

  abbrev pub erroring_crypter : Crypter
  erroring_crypter = record { encrypt = λ _. none; decrypt = λ _. none }

  -- `key_arn` is the value of OAUTH_KMS_KEY_ARN, and `client` the KMS client that the AWS
  -- configuration gives, `none` if it cannot be loaded.
  unfoldable pub build_crypter : Text → Option Kms → Crypter
  build_crypter key_arn client =
      if is_empty key_arn
      then plaintext_crypter
      else elim client [ none ↦ erroring_crypter | some kms ↦ kms_crypter kms ]

  -- What base64 and KMS document: each decodes what it encoded.
  pub record Decodes (client : Option Kms) : Type 0 where
    pub base64 : (t : Text) → lib.base64_std_decode (lib.base64_std t) ≡ some t
    pub kms :
        (k : Kms) (t blob : Text)
        → client ≡ some k
        → k.encrypt t ≡ some blob
        → k.decrypt blob ≡ some t

  -- Whatever crypter the environment selects, what it encrypts it decrypts to the same text.
  pub decrypt-encrypt :
      (key_arn : Text) (client : Option Kms) (t c : Text)
      → Decodes client
      → (build_crypter key_arn client).encrypt t ≡ some c
      → (build_crypter key_arn client).decrypt c ≡ some t
  unfolding build_crypter kms_encrypt kms_decrypt plaintext_encrypt plaintext_decrypt
  decrypt-encrypt key_arn none t c d h = ground (arith, d.base64 t)
  decrypt-encrypt key_arn (some k) t c d h = elim (Option-cases (k.encrypt t)) [
    | inl e ↦ ground (arith, d.base64 t)
    | inr (blob, e) ↦ ground (arith, d.base64 t, d.base64 blob, d.kms k t blob refl e)
  ]
