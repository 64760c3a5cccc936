-- ===== src/Backup/Envelope/RoundTrip.antt =====
-- What an envelope gives back.
use swirl_evo.Common.{
  ℕ, ◌+◌, ◌≡◌, ◌≢◌, refl, ap, true, [], ◌∷◌, ◌++◌, Option, none, some, Text, arith, length,
  length-append, take, drop, take-length_append, drop-length_append, text_eq, ==_self, ==_ne,
}
use swirl_evo.Backup.Envelope.{
  Cipher, Result, ok, magic_at_rest, magic_portable, nonce_len, portable_salt_len, encrypt_at_rest,
  open_at_rest, encrypt_portable, decrypt_portable, decrypt_any,
}

take-append : (n : ℕ) (xs ys : Text) → length xs ≡ n → take n (xs ++ ys) ≡ xs
take-append n xs ys e = rw⁻¹ e (take-length_append xs ys)

drop-append : (n : ℕ) (xs ys : Text) → length xs ≡ n → drop n (xs ++ ys) ≡ ys
drop-append n xs ys e = rw⁻¹ e (drop-length_append xs ys)

append_assoc : (xs ys zs : Text) → (xs ++ ys) ++ zs ≡ xs ++ (ys ++ zs)
append_assoc [] ys zs = refl
append_assoc (x ∷ xs) ys zs = ap (◌∷◌ x) (append_assoc xs ys zs)

module _ (c : Cipher) where
  encrypt_at_rest-eq :
      (key nonce plaintext archive : Text)
      → encrypt_at_rest c (ok key) (some nonce) plaintext ≡ ok archive
      → (c.accepts key ≡ true) × (archive ≡ magic_at_rest ++ nonce ++ c.seal key nonce plaintext)
  encrypt_at_rest-eq key nonce plaintext archive e = unfold encrypt_at_rest in ground (arith, e)

  -- With a cipher that opens what it sealed, an archive that was encrypted at rest under a key, with a
  -- nonce of its length, is decrypted to the same bytes under that key.
  pub open_at_rest-encrypt_at_rest :
      (opens : (k n p : Text) → c.accepts k ≡ true → c.unseal k n (c.seal k n p) ≡ some p)
      (key nonce plaintext archive : Text)
      → length nonce ≡ nonce_len
      → encrypt_at_rest c (ok key) (some nonce) plaintext ≡ ok archive
      → open_at_rest c archive key ≡ ok plaintext
  open_at_rest-encrypt_at_rest opens key nonce plaintext archive l e =
      let (a, s) = encrypt_at_rest-eq key nonce plaintext archive e in
      let body = nonce ++ c.seal key nonce plaintext in
      rw s (
        unfold open_at_rest in
        ground (
          arith,
          a,
          opens key nonce plaintext a,
          take-append nonce_len nonce (c.seal key nonce plaintext) l,
          drop-append nonce_len nonce (c.seal key nonce plaintext) l,
          length-append nonce (c.seal key nonce plaintext),
          l,
        ))

  module _ (derive_key : Text → Text → Option Text) where
    encrypt_portable-eq :
        (salt nonce plaintext passphrase archive : Text)
        → encrypt_portable c derive_key (some salt) (some nonce) plaintext passphrase ≡ ok archive
        → (key : Text) × (passphrase ≢ [])
          × (derive_key passphrase salt ≡ some key)
          × (c.accepts key ≡ true)
          × (archive ≡ magic_portable ++ salt ++ nonce ++ c.seal key nonce plaintext)
    encrypt_portable-eq salt nonce plaintext passphrase archive e =
        go (derive_key passphrase salt) refl
      where
        go :
            (o : Option Text)
            → derive_key passphrase salt ≡ o
            → (key : Text) × (passphrase ≢ [])
              × (derive_key passphrase salt ≡ some key)
              × (c.accepts key ≡ true)
              × (archive ≡ magic_portable ++ salt ++ nonce ++ c.seal key nonce plaintext)
        go none q = absurd (unfold encrypt_portable in ground (arith, e, q))
        go (some key) q = (
          key,
          λ p. absurd (unfold encrypt_portable in ground (arith, e, q, p, ==_self passphrase)),
          q,
          unfold encrypt_portable in ground (arith, e, q),
          unfold encrypt_portable in ground (arith, e, q),
        )

    -- With a cipher that opens what it sealed, an archive that was encrypted with a passphrase, with a
    -- salt and a nonce of their lengths, is decrypted to the same bytes with that passphrase, whatever
    -- the master key is and also where there is none.
    pub decrypt_any-encrypt_portable :
        (opens : (k n p : Text) → c.accepts k ≡ true → c.unseal k n (c.seal k n p) ≡ some p)
        (master : Result Text) (salt nonce plaintext passphrase archive : Text)
        → length salt ≡ portable_salt_len
        → length nonce ≡ nonce_len
        → encrypt_portable c derive_key (some salt) (some nonce) plaintext passphrase ≡ ok archive
        → decrypt_any c derive_key master archive passphrase ≡ ok plaintext
    decrypt_any-encrypt_portable opens master salt nonce plaintext passphrase archive ls ln e =
        let (key, named, d, a, s) = encrypt_portable-eq salt nonce plaintext passphrase archive e in
        let sealed = c.seal key nonce plaintext in
        let salted : length (salt ++ nonce) ≡ portable_salt_len + nonce_len =
          omega (arith, length-append salt nonce, ls, ln) in
        let skip = drop-append (portable_salt_len + nonce_len) (salt ++ nonce) sealed salted in
        let salt_part : take portable_salt_len ((salt ++ nonce) ++ sealed) ≡ salt =
          rw (append_assoc salt nonce sealed)
            (take-append portable_salt_len salt (nonce ++ sealed) ls) in
        let nonce_part : take nonce_len (drop portable_salt_len ((salt ++ nonce) ++ sealed))
            ≡ nonce =
          rw
            (
              append_assoc salt nonce sealed,
              drop-append portable_salt_len salt (nonce ++ sealed) ls,
            )
            (take-append nonce_len nonce sealed ln) in
        rw s (
          unfold decrypt_any decrypt_portable in
          ground (
            arith,
            a,
            d,
            opens key nonce plaintext a,
            salt_part,
            nonce_part,
            skip,
            length-append (salt ++ nonce) sealed,
            salted,
            ==_ne passphrase [] named,
          ))
