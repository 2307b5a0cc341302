-- ===== src/Identity/Streaming.antt =====
-- The chunked hash of identity.py and the hash of the whole content.
use mathlib.Core.List.{append-nil, append_assoc}
use pi_mobile_photobackup.Prelude.{
  ℕ, zero, suc, ◌+◌, ◌<◌, ◌≡◌, ap, ◌∙◌, Bytes, [], ◌∷◌, ◌++◌, arith, length, take, drop,
  length-append, length-drop, take-append-drop,
}
use pi_mobile_photobackup.Identity.{
  Sha256, hashed, hash_loop, hash_stream, content_identity_of_bytes,
}

module _ (sha : Sha256) where
  hash_loop_lem :
      (fuel chunk_bytes : ℕ) (reader : Bytes) (size : ℕ) (fed : Bytes)
      → length reader < fuel
      → hash_loop sha fuel (suc chunk_bytes) reader size fed
        ≡ hashed
            (record { size_bytes = size + length reader; sha256 = sha.hexdigest (fed ++ reader) })
  unfolding hash_loop
  hash_loop_lem zero n reader size fed h = absurd (omega arith)
  hash_loop_lem (suc fuel) n [] size fed h = rw append-nil (ground arith)
  hash_loop_lem (suc fuel) n (x ∷ xs) size fed h =
      hash_loop_lem fuel n (drop n xs) (size + suc (length (take n xs))) (fed ++ x ∷ take n xs)
        (omega (arith, length-drop n xs))
      ∙ ground
          (arith, whole, ap length (take-append-drop n xs), length-append (take n xs) (drop n xs))
    where
      whole : (fed ++ x ∷ take n xs) ++ drop n xs ≡ fed ++ x ∷ xs
      whole = rw append_assoc (rw (take-append-drop n xs))

  -- For every positive chunk size the loop ends, and returns the size and the digest of the whole
  -- content: the identity does not depend on how the content is cut into chunks.
  pub hash_stream_lem :
      (reader : Bytes) (chunk_bytes : ℕ)
      → 0 < chunk_bytes
      → hash_stream sha reader chunk_bytes ≡ hashed (content_identity_of_bytes sha reader)
  unfolding hash_stream content_identity_of_bytes
  hash_stream_lem reader zero h = absurd (omega arith)
  hash_stream_lem reader (suc n) h =
      rw (hash_loop_lem (suc (length reader)) n reader 0 [] (omega arith)) (ground arith)
