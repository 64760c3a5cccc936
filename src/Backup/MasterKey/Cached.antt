-- ===== src/Backup/MasterKey/Cached.antt =====
-- The key over time.
use swirl_evo.Common.{
  ℕ, ◌+◌, ◌≤◌, ◌<◌, ◌≡◌, ◌≢◌, refl, sym, ap, ◌∙◌, Bool, true, false, [], ◌∷◌, Option, none, some,
  Text, arith, length, text_eq, not, ◌&&◌, ◌==◌, eqb, ltb, leb, ==_iff, Bool-cases, ==_ne, inl, inr,
}
use swirl_evo.Backup.Envelope.{
  Result, ok, err, Cipher, encrypt_at_rest, decrypt_at_rest, nonce_len, too_short,
}
use swirl_evo.Backup.Envelope.RoundTrip.{open_at_rest-encrypt_at_rest}
use swirl_evo.Backup.MasterKey.{
  Keys, key_min_len, five_minutes, fetch_from_provider, fetched, master_key, derived,
}

abbrev is_fresh : ℕ → Keys → Bool
is_fresh now k = not (k.cache == []) && (not (eqb k.expires 0) && ltb now k.expires)

module _ (derive_key : Text → Text → Option Text) where
  -- A master key that was read stays the master key for the next five minutes, whatever the provider
  -- answers then, if the environment's passphrase, cache and provider are touched by nothing else and
  -- a cached passphrase still had five minutes when it was used.
  master_key-kept :
      (answer answer' : Option Text) (now later : ℕ) (k : Keys) (key : Text)
      → (master_key derive_key answer now k).0 ≡ ok key
      → later < now + five_minutes
      → now ≤ later
      → (k.cache ≢ [] → k.expires ≢ 0 → now < k.expires → later < k.expires)
      → (master_key derive_key answer' later (master_key derive_key answer now k).1).0 ≡ ok key
  master_key-kept answer answer' now later k key e l g held =
      elim (Bool-cases (leb key_min_len (length k.env))) [
        | inl y ↦ unfold master_key in ground (arith, e, y)
        | inr n ↦ elim (Bool-cases (is_fresh now k)) [
          | inl y ↦ unfold master_key in ground (arith, e, n, y, l, g, held, ==_iff k.cache [])
          | inr o ↦ go answer e n o
        ]
      ]
    where
      go :
          (answer : Option Text)
          → (master_key derive_key answer now k).0 ≡ ok key
          → leb key_min_len (length k.env) ≡ false
          → is_fresh now k ≡ false
          → (master_key derive_key answer' later (master_key derive_key answer now k).1).0 ≡ ok key
      go none e n o =
          absurd (unfold master_key fetched fetch_from_provider in ground (arith, e, n, o))
      go (some []) e n o =
          absurd (unfold master_key fetched fetch_from_provider in ground (arith, e, n, o))
      go (some (b ∷ pw)) e n o =
          unfold master_key fetched fetch_from_provider in ground (arith, e, n, o, l, g)

  -- With a provider, too short a passphrase in the environment and an empty cache: a passphrase that the
  -- provider answers, not empty and shorter than the least length, is refused, and kept in the cache: at
  -- once after that refusal, and until five minutes later, the key that is derived from it is the master
  -- key.
  pub master_key-short :
      (answer' : Option Text) (pw : Text) (now later : ℕ) (k : Keys)
      → length k.env < key_min_len
      → k.has_provider ≡ true
      → k.cache ≡ []
      → pw ≢ []
      → length pw < key_min_len
      → later < now + five_minutes
      → ((master_key derive_key (some pw) now k).0 ≡ err too_short)
        × ((master_key derive_key answer' later (master_key derive_key (some pw) now k).1).0
            ≡ derived derive_key pw)
  master_key-short answer' pw now later k short y n named less l =
      unfold master_key fetched fetch_from_provider in ground (arith, ==_ne pw [] named)

  -- With a cipher that opens what it sealed: an archive encrypted at rest with the master key of a
  -- moment is decrypted to the same bytes with the master key of any moment of the next five minutes,
  -- whatever the provider answers then, if nothing but that reading changed the keys in between and a
  -- cached passphrase that was used is held until then.
  pub decrypt_at_rest-encrypt_at_rest :
      (c : Cipher)
      (opens : (k n p : Text) → c.accepts k ≡ true → c.unseal k n (c.seal k n p) ≡ some p)
      (answer answer' : Option Text) (now later : ℕ) (k : Keys) (nonce plaintext archive : Text)
      → length nonce ≡ nonce_len
      → encrypt_at_rest c (master_key derive_key answer now k).0 (some nonce) plaintext ≡ ok archive
      → now ≤ later
      → later < now + five_minutes
      → (k.cache ≢ [] → k.expires ≢ 0 → now < k.expires → later < k.expires)
      → decrypt_at_rest c
          (master_key derive_key answer' later (master_key derive_key answer now k).1).0
          archive
        ≡ ok plaintext
  decrypt_at_rest-encrypt_at_rest c opens answer answer' now later k nonce plaintext archive ln e g
        l held =
      go (master_key derive_key answer now k).0 refl
    where
      go :
          (r : Result Text)
          → (master_key derive_key answer now k).0 ≡ r
          → decrypt_at_rest c
              (master_key derive_key answer' later (master_key derive_key answer now k).1).0
              archive
            ≡ ok plaintext
      go (err x) q = absurd (unfold encrypt_at_rest in ground (arith, e, q))
      go (ok key) q =
          let sealed : encrypt_at_rest c (ok key) (some nonce) plaintext ≡ ok archive =
            ap (λ m. encrypt_at_rest c m (some nonce) plaintext) (sym q) ∙ e in
          unfold decrypt_at_rest in
          rw (master_key-kept answer answer' now later k key q l g held)
            (open_at_rest-encrypt_at_rest c opens key nonce plaintext archive ln sealed)
