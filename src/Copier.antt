-- ===== src/Copier.antt =====
-- aethereal/backup/copier.py: copy, three-way verification and finalization of one content object.
-- The proofs are in the children.
pub mod Reported
pub mod Crash
pub mod Safety
use pi_mobile_photobackup.Prelude.{
  ℕ, zero, suc, ◌+◌, Text, Bytes, Bool, true, false, not, ◌||◌, Option, none, some, List, [], ◌∷◌,
  ◌++◌, length, take, drop, ◌==◌, text_eq, if◌then◌else◌,
}
use pi_mobile_photobackup.Identity.{
  Sha256, ContentIdentity, Hashed, hashed, bad_chunk_size, out_of_fuel, hash_stream, is_empty,
}
use pi_mobile_photobackup.ObjectStore.{object_path, partial_path}
use pi_mobile_photobackup.Effects
use pi_mobile_photobackup.Effects.{
  Exec, pure, throw, gets, require, ◌>>=◌, ◌>>◌, os_error, file_not_found, value_error,
  session_path_conflict,
}
use pi_mobile_photobackup.Files
use pi_mobile_photobackup.Files.{unlink, inode, blob, exists}
use pi_mobile_photobackup.World.{
  World, SourceRead, missing, readable, fails_at, Environment, Action, on_files, open_source,
}
use pi_mobile_photobackup.Journal.{record_pending_finalize, mark_verified}

pub data CopyOutcome : Type 0 where
  verified source_unstable destination_mismatch failed : CopyOutcome

pub record CopyResult : Type 0 where
  pub outcome : CopyOutcome
  pub object_path : Text
  pub session_path : Text
  pub expected_sha256 : Text
  pub copy_stream_sha256 : Option Text
  pub destination_sha256 : Option Text
  pub bytes_written : ℕ
  pub attempts : ℕ

pub data AttemptResult : Type 0 where
  attempt_ok attempt_source_unstable attempt_destination_mismatch : AttemptResult

-- `result is _AttemptResult.OK`
abbrev pub is_ok : AttemptResult → Bool
is_ok attempt_ok = true
is_ok _ = false

-- The outcome after the last round.
unfoldable pub failed_outcome : AttemptResult → CopyOutcome
failed_outcome attempt_source_unstable = source_unstable
failed_outcome _ = destination_mismatch

-- The tuple that one attempt returns.
pub record Attempt : Type 0 where
  pub result : AttemptResult
  pub h2 : Text
  pub h3 : Option Text
  pub size : ℕ

-- The copy loop: what is left of the source, the size so far, what the digest was fed, what was
-- written.
unfoldable pub copy_loop : ℕ → ℕ → Bytes → ℕ → Bytes → Bytes → Option (ℕ × Bytes × Bytes)
copy_loop zero chunk_bytes source size fed out = none
copy_loop (suc fuel) chunk_bytes source size fed out =
    let chunk = take chunk_bytes source in
    let rest =
      copy_loop fuel chunk_bytes (drop chunk_bytes source) (size + length chunk) (fed ++ chunk)
        (out ++ chunk) in
    if is_empty chunk then some (size, fed, out) else rest

-- The `sha256` of `hash_stream`.
unfoldable pub digest_of : Hashed → Action Text
unfolding pure throw
digest_of (hashed c) = pure c.sha256
digest_of bad_chunk_size = throw value_error
digest_of out_of_fuel = throw Effects.out_of_fuel

-- `partial.open("xb")`: the inode of the new file.
unfoldable pub create_exclusive : Text → Action ℕ
unfolding pure throw gets
create_exclusive path = do
  taken ← gets (λ w. exists path w.files)
  if taken
      then throw os_error
      else do i ← gets (λ w. w.files.next_inode); on_files (Files.create path); pure i

-- `_link_into_session`; `os.link` looks for its source first.
link_at : ℕ → Text → Option ℕ → Action (Unit {0})
unfolding pure throw
link_at i session_path none = on_files (Files.link i session_path)
link_at i session_path (some j) =
    if j == i then pure tt else throw (session_path_conflict session_path)

unfoldable pub link_into_session : Text → Text → Action (Unit {0})
unfolding link_at gets require
link_into_session final session_path = do
  target ← gets (λ w. inode final w.files)
  i ← require file_not_found target
  taken ← gets (λ w. inode session_path w.files)
  link_at i session_path taken

unfoldable pub link_result : Text → Text → Text → CopyResult
link_result final sha256 session_path = record {
  outcome = verified;
  object_path = final;
  session_path = session_path;
  expected_sha256 = sha256;
  copy_stream_sha256 = none;
  destination_sha256 = none;
  bytes_written = 0;
  attempts = 0;
}

unfoldable pub link_verified_object : Text → Text → ContentIdentity → Text → Action CopyResult
unfolding link_result pure throw gets require
link_verified_object job_id root identity session_path = do
  final ← require value_error (object_path root identity.sha256)
  there ← gets (λ w. exists final w.files)
  if there
      then (do
        link_into_session final session_path
        mark_verified job_id identity final session_path
        pure (link_result final identity.sha256 session_path))
      else throw file_not_found

module _ (sha : Sha256) (env : Environment) (chunk_bytes : ℕ) where
  -- What the device holds of the bytes written.
  unfoldable pub write_partial : ℕ → Bytes → Action (Unit {0})
  unfolding gets
  write_partial i out = do n ← gets (λ w. w.written); on_files (Files.write i (env.lands n out))

  -- From H3 on.
  unfoldable pub verify_landed : Text → ContentIdentity → Text → ℕ → Action Attempt
  unfolding digest_of
  verify_landed partial expected h2 size = do
    name ← gets (λ w. inode partial w.files)
    i ← require file_not_found name
    content ← gets (λ w. blob i w.files)
    h3 ← digest_of (hash_stream sha content chunk_bytes)
    if text_eq h3 expected.sha256
        then pure (record { result = attempt_ok; h2 = h2; h3 = some h3; size = size })
        else do
          on_files (unlink partial)
          pure
              (record { result = attempt_destination_mismatch; h2 = h2; h3 = some h3; size = size })

  -- What the source delivered is in the partial file; H2 against H1.
  unfoldable pub copy_delivered : Text → ContentIdentity → SourceRead → Action Attempt
  unfolding create_exclusive write_partial verify_landed
  copy_delivered partial expected missing = throw file_not_found
  copy_delivered partial expected (fails_at delivered) = do
    i ← create_exclusive partial
    write_partial i delivered
    throw os_error
  copy_delivered partial expected (readable content) = do
    i ← create_exclusive partial
    (size, fed, out) ←
        require Effects.out_of_fuel (copy_loop (suc (length content)) chunk_bytes content 0 [] [])
    write_partial i out
    if not (size == expected.size_bytes) || not (text_eq (sha.hexdigest fed) expected.sha256)
        then (do
          on_files (unlink partial)
          pure (record {
            result = attempt_source_unstable;
            h2 = sha.hexdigest fed;
            h3 = none;
            size = size;
          }))
        else verify_landed partial expected (sha.hexdigest fed) size

  unfoldable pub copy_and_verify_once : Text → Text → ContentIdentity → Action Attempt
  unfolding copy_delivered
  copy_and_verify_once source_path partial expected = do
    on_files (unlink partial)
    source ← open_source env source_path
    copy_delivered partial expected source

  module _ (job_id source_path session_path : Text) (expected : ContentIdentity) where
    -- `os.replace(partial, final)`
    unfoldable pub rename : Text → Text → Action (Unit {0})
    unfolding gets require
    rename partial final = do
      name ← gets (λ w. inode partial w.files)
      i ← require file_not_found name
      on_files (Files.replace partial i final)

    unfoldable pub finalize : Text → Text → Attempt → ℕ → Action CopyResult
    unfolding rename link_into_session
    finalize partial final a attempts = do
      record_pending_finalize job_id expected partial final session_path
      rename partial final
      link_into_session final session_path
      mark_verified job_id expected final session_path
      pure (record {
        outcome = verified;
        object_path = final;
        session_path = session_path;
        expected_sha256 = expected.sha256;
        copy_stream_sha256 = some a.h2;
        destination_sha256 = a.h3;
        bytes_written = a.size;
        attempts = attempts;
      })

    -- The `for` loop, by the rounds left, and what follows it.
    unfoldable pub copy_rounds :
        ℕ → Text → Text → ℕ → AttemptResult → Option Text → Option Text → Action CopyResult
    unfolding finalize failed_outcome copy_and_verify_once
    copy_rounds zero partial final attempts last h2 h3 = do
      on_files (unlink partial)
      pure (record {
        outcome = failed_outcome last;
        object_path = final;
        session_path = session_path;
        expected_sha256 = expected.sha256;
        copy_stream_sha256 = h2;
        destination_sha256 = h3;
        bytes_written = 0;
        attempts = attempts;
      })
    copy_rounds (suc rounds) partial final attempts last h2 h3 = do
      a ← copy_and_verify_once source_path partial expected
      if is_ok a.result
          then finalize partial final a (suc attempts)
          else copy_rounds rounds partial final (suc attempts) a.result (some a.h2) a.h3

    unfoldable pub copy_verify_finalize : Text → ℕ → Action CopyResult
    unfolding copy_rounds link_verified_object
    copy_verify_finalize root retries = do
      final ← require value_error (object_path root expected.sha256)
      partial ← require value_error (partial_path root expected.sha256)
      there ← gets (λ w. exists final w.files)
      if there
          then link_verified_object job_id root expected session_path
          else copy_rounds (suc retries) partial final 0 attempt_source_unstable none none
