-- ===== src/Identity.antt =====
-- aethereal/backup/identity.py: content identities, and the streaming hash. `hashlib`'s SHA-256 is
-- a parameter: a hash object is the bytes that it has been fed, as its documentation has it
-- (repeated updates are one update with the concatenation). The proofs are in
-- Identity/Streaming.antt.
pub mod Streaming
use pi_mobile_photobackup.Prelude.{
  ℕ, zero, suc, ◌+◌, ◌≤◌, ◌≡◌, Text, Bytes, codes, Bool, true, false, ◌&&◌, ◌||◌, Option, none,
  some, List, [], ◌∷◌, ◌++◌, arith, ◌==◌, leb, text_eq, text_eq_iff, ◌↔◌, length, take, drop,
  count_p, if◌then◌else◌,
}

abbrev pub is_dot : ℕ → Bool
is_dot c = c == 46

-- What is used of SHA-256: a digest in hexadecimal digits, of which there are 64.
pub record Sha256 : Type 0 where
  pub hexdigest : Bytes → Text
  pub hexdigest_length : (b : Bytes) → 4 ≤ length (hexdigest b)
  pub hexdigest_no_dot : (b : Bytes) → count_p is_dot (hexdigest b) ≡ 0

pub record ContentIdentity : Type 0 where
  pub size_bytes : ℕ
  pub sha256 : Text

unfoldable pub identity_eq : ContentIdentity → ContentIdentity → Bool
identity_eq a b = a.size_bytes == b.size_bytes && text_eq a.sha256 b.sha256

pub identity_eq_iff : (a b : ContentIdentity) → (identity_eq a b ≡ true) ↔ (a ≡ b)
unfolding identity_eq
identity_eq_iff a b = ground (arith, text_eq_iff a.sha256 b.sha256)

-- `identity in identities`
unfoldable pub identity_in : ContentIdentity → List ContentIdentity → Bool
identity_in x [] = false
identity_in x (y ∷ ys) = identity_eq x y || identity_in x ys

abbrev pub is_empty : Bytes → Bool
is_empty [] = true
is_empty (_ ∷ _) = false

pub data Hashed : Type 0 where
  hashed : ContentIdentity → Hashed
  bad_chunk_size : Hashed
  out_of_fuel : Hashed

module _ (sha : Sha256) where
  -- The `while True` loop: what is left of the reader, the size so far, the bytes fed to the digest.
  unfoldable pub hash_loop : ℕ → ℕ → Bytes → ℕ → Bytes → Hashed
  hash_loop zero chunk_bytes reader size fed = out_of_fuel
  hash_loop (suc fuel) chunk_bytes reader size fed =
      let chunk = take chunk_bytes reader in
      let rest =
        hash_loop fuel chunk_bytes (drop chunk_bytes reader) (size + length chunk) (fed ++ chunk) in
      if is_empty chunk
      then hashed (record { size_bytes = size; sha256 = sha.hexdigest fed })
      else rest

  unfoldable pub hash_stream : Bytes → ℕ → Hashed
  unfolding hash_loop
  hash_stream reader chunk_bytes =
      if leb chunk_bytes 0
      then bad_chunk_size
      else hash_loop (suc (length reader)) chunk_bytes reader 0 []

  unfoldable pub content_identity_of_bytes : Bytes → ContentIdentity
  content_identity_of_bytes b = record { size_bytes = length b; sha256 = sha.hexdigest b }
