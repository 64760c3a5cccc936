-- ===== src/Backup/Envelope.antt =====
-- The archive formats of biz/backup_crypto.go. The cipher (`aesGCM` with `Seal` and `Open`) and the
-- derivation of keys (`deriveKey`) are parameters; a nonce or salt is `none` where the source of
-- random bytes fails.
pub mod RoundTrip
use swirl_evo.Common.{
  ℕ, ◌+◌, Bool, true, false, ◌&&◌, ◌||◌, not, ◌==◌, List, [], ◌∷◌, ◌++◌, Option, none, some, Text,
  codes, length, take, drop, ltb, leb, text_eq, if◌then◌else◌,
}

abbrev pub magic_at_rest : Text
magic_at_rest = codes "SWBR"

abbrev pub magic_portable : Text
magic_portable = codes "SWBP"

abbrev pub nonce_len : ℕ
nonce_len = 12

abbrev pub portable_salt_len : ℕ
portable_salt_len = 16

pub data Error : Type 0 where
  missing_key provider_failed too_short no_cipher no_random invalid_format cannot_decrypt
        no_passphrase :
      Error

infixl 5 ◌>>=◌
pub data Result {ℓ} (A : Type ℓ) : Type ℓ where
  ok : A → Result A
  err : Error → Result A

abbrev pub ◌>>=◌ {ℓ κ} : {A : Type ℓ} {B : Type κ} → Result A → (A → Result B) → Result B
ok a >>= f = f a
err e >>= f = err e

abbrev pub or_err {ℓ} : {A : Type ℓ} → Error → Option A → Result A
or_err e none = err e
or_err e (some a) = ok a

-- AES-GCM: whether a key makes a cipher, and the two directions, each with key, nonce and bytes.
pub record Cipher : Type 0 where
  pub accepts : Text → Bool
  pub seal : Text → Text → Text → Text
  pub unseal : Text → Text → Text → Option Text

module _ (c : Cipher) where
  abbrev cipher_of : Text → Result Text
  cipher_of key = if c.accepts key then ok key else err no_cipher

  -- `encryptAtRest` from the master key on.
  unfoldable pub encrypt_at_rest : Result Text → Option Text → Text → Result Text
  encrypt_at_rest master nonce plaintext = do
    key ← master
    k ← cipher_of key
    n ← or_err no_random nonce
    ok (magic_at_rest ++ n ++ c.seal k n plaintext)

  unfoldable pub open_at_rest : Text → Text → Result Text
  open_at_rest archive key =
      if ltb (length archive) (length magic_at_rest + nonce_len)
        || not (take (length magic_at_rest) archive == magic_at_rest)
      then err invalid_format
      else do
        k ← cipher_of key
        or_err cannot_decrypt (
            c.unseal k (take nonce_len (drop (length magic_at_rest) archive))
              (drop (length magic_at_rest + nonce_len) archive))

  unfoldable pub decrypt_at_rest : Result Text → Text → Result Text
  unfolding open_at_rest
  decrypt_at_rest master archive = do key ← master; open_at_rest archive key

  module _ (derive_key : Text → Text → Option Text) where
    unfoldable pub encrypt_portable : Option Text → Option Text → Text → Text → Result Text
    encrypt_portable salt nonce plaintext passphrase =
        if passphrase == [] then err no_passphrase else do
          s ← or_err no_random salt
          key ← or_err no_cipher (derive_key passphrase s)
          k ← cipher_of key
          n ← or_err no_random nonce
          ok (magic_portable ++ s ++ n ++ c.seal k n plaintext)

    unfoldable pub decrypt_portable : Text → Text → Result Text
    decrypt_portable archive passphrase =
        if ltb (length archive) (length magic_portable + portable_salt_len + nonce_len)
          || not (take (length magic_portable) archive == magic_portable)
        then err invalid_format
        else if passphrase == []
        then err no_passphrase
        else do
          key ← or_err no_cipher (
              derive_key passphrase (take portable_salt_len (drop (length magic_portable) archive)))
          k ← cipher_of key
          or_err cannot_decrypt (
              c.unseal k (take nonce_len (drop (length magic_portable + portable_salt_len) archive))
                (drop (length magic_portable + portable_salt_len + nonce_len) archive))

    -- `decryptAny`, whose master key is read only where the archive is one at rest.
    unfoldable pub decrypt_any : Result Text → Text → Text → Result Text
    unfolding decrypt_at_rest decrypt_portable
    decrypt_any master archive passphrase =
        if leb (length magic_at_rest) (length archive)
          && take (length magic_at_rest) archive == magic_at_rest
        then decrypt_at_rest master archive
        else if leb (length magic_portable) (length archive)
            && take (length magic_portable) archive == magic_portable
        then decrypt_portable archive passphrase
        else err invalid_format
