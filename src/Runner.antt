-- ===== src/Runner.antt =====
-- aethereal/backup/runner.py: a job executes an unblocked plan file by file. Whether cancellation
-- was requested is asked of the environment at each boundary. The proofs are in the children.
pub mod Tallies
pub mod Accounts
pub mod Safety
use pi_mobile_photobackup.Prelude.{
  ℕ, suc, ◌+◌, Text, codes, Bool, true, false, not, Option, none, some, List, [], ◌∷◌, ◌++◌, length,
  sum_p, ◌==◌, if◌then◌else◌,
}
use pi_mobile_photobackup.Identity.{Sha256, ContentIdentity}
use pi_mobile_photobackup.Effects.{
  Error, Result, ok, raise, Exec, pure, throw, gets, require, ◌>>=◌, ◌>>◌, value_error,
  file_not_found, session_path_conflict, assertion_error,
}
use pi_mobile_photobackup.World.{World, Environment, Action, is_os_error}
use pi_mobile_photobackup.Planner.{
  FileAction, copy_verify_object_and_link, link_existing_verified_object, link_new_object_same_job,
  skip_unsupported, block_conflict, block_unreadable, PlannedFile, Plan,
}
use pi_mobile_photobackup.Copier.{
  CopyOutcome, verified, CopyResult, copy_verify_finalize, link_verified_object,
}

pub data JobOutcome : Type 0 where
  completed completed_with_warnings cancelled failed : JobOutcome

-- Why a file failed; the texts of the exceptions are left out.
pub data Failure : Type 0 where
  source_error : Text → Error → Failure
  copy_failed : Text → CopyOutcome → Failure
  link_failed : Text → Error → Failure
  unexpected_blocking_action : Text → Failure

pub record JobRunResult : Type 0 where
  pub outcome : JobOutcome
  pub files_verified : ℕ
  pub files_copied : ℕ
  pub files_skipped : ℕ
  pub files_failed : ℕ
  pub bytes_copied : ℕ
  pub failures : List Failure

-- One call of `on_progress`.
pub record Progress : Type 0 where
  pub done : ℕ
  pub total : ℕ
  pub done_bytes : ℕ
  pub total_bytes : ℕ
  pub current_file : Text

-- The local variables of the loop, and the calls of `on_progress`.
pub record Tally : Type 0 where
  pub files_verified : ℕ
  pub files_copied : ℕ
  pub files_skipped : ℕ
  pub files_failed : ℕ
  pub bytes_copied : ℕ
  pub failures : List Failure
  pub done : ℕ
  pub bytes_done : ℕ
  pub progress : List Progress

abbrev pub empty_tally : Tally
empty_tally = record {
  files_verified = 0;
  files_copied = 0;
  files_skipped = 0;
  files_failed = 0;
  bytes_copied = 0;
  failures = [];
  done = 0;
  bytes_done = 0;
  progress = [];
}

unfoldable pub count_failure : Failure → Tally → Tally
count_failure f t = record t { files_failed = suc t.files_failed; failures = t.failures ++ f ∷ [] }

-- What follows the branches of the loop's body.
unfoldable pub report : ℕ → ℕ → PlannedFile → Tally → Tally
report total total_bytes f t = record t {
  done = suc t.done;
  bytes_done = t.bytes_done + f.planned_size_bytes;
  progress =
      t.progress
      ++ record {
        done = suc t.done;
        total = total;
        done_bytes = t.bytes_done + f.planned_size_bytes;
        total_bytes = total_bytes;
        current_file = f.relative_path;
      }
        ∷ [];
}

unfoldable pub count_copy : Text → CopyResult → Tally → Tally
unfolding count_failure
count_copy path result t = elim result.outcome [
  | verified ↦ record t {
    files_verified = suc t.files_verified;
    files_copied = suc t.files_copied;
    bytes_copied = t.bytes_copied + result.bytes_written;
  }
  | other ↦ count_failure (copy_failed path other) t
]

abbrev pub is_existing : FileAction → Bool
is_existing link_existing_verified_object = true
is_existing _ = false

unfoldable pub count_link : FileAction → Tally → Tally
count_link action t = record t {
  files_verified = suc t.files_verified;
  files_skipped = if is_existing action then suc t.files_skipped else t.files_skipped;
}

-- `except (FileNotFoundError, SessionPathConflict)`
abbrev pub is_link_error : Error → Bool
is_link_error file_not_found = true
is_link_error (session_path_conflict _) = true
is_link_error _ = false

-- `try`/`except`: a handled error goes on with another program, any other is raised again.
module _ {A B : Type 0} where
  abbrev pub resume :
      (Error → Bool) → (A → Action B) → (Error → Action B) → Result A × World → Result B × World
  resume handles body handler (ok a, w) = body a w
  resume handles body handler (raise e, w) = if handles e then handler e w else (raise e, w)

  unfoldable pub try_except :
      (Error → Bool) → Action A → (A → Action B) → (Error → Action B) → Action B
  try_except handles m body handler w = resume handles body handler (m w)

module _ (sha : Sha256) (env : Environment) (chunk_bytes retries : ℕ)
    (job_id source_root object_store_root : Text) (total total_bytes : ℕ) where
  unfoldable pub copy_file : PlannedFile → ContentIdentity → Tally → Action Tally
  unfolding try_except pure report count_copy count_failure
  copy_file f identity t =
      try_except is_os_error
        (copy_verify_finalize sha env chunk_bytes job_id
          (source_root ++ (codes "/" ++ f.relative_path)) f.session_path identity object_store_root
          retries)
        (λ result. pure (report total total_bytes f (count_copy f.relative_path result t)))
        -- `continue`: the file is neither counted as done nor reported
        (λ e. pure (count_failure (source_error f.relative_path e) t))

  unfoldable pub link_file : PlannedFile → FileAction → ContentIdentity → Tally → Action Tally
  unfolding try_except pure report count_link count_failure
  link_file f action identity t =
      try_except is_link_error
        (link_verified_object job_id object_store_root identity f.session_path)
        (λ _. pure (report total total_bytes f (count_link action t)))
        (λ e. pure (report total total_bytes f (count_failure (link_failed f.relative_path e) t)))

  unfoldable pub run_action : FileAction → PlannedFile → Tally → Action Tally
  unfolding copy_file link_file pure require report count_failure
  run_action copy_verify_object_and_link f t = do
    identity ← require assertion_error f.identity
    copy_file f identity t
  run_action link_existing_verified_object f t = do
    identity ← require assertion_error f.identity
    link_file f link_existing_verified_object identity t
  run_action link_new_object_same_job f t = do
    identity ← require assertion_error f.identity
    link_file f link_new_object_same_job identity t
  run_action skip_unsupported f t = pure (report total total_bytes f t)
  run_action _ f t =
      pure
        (report total total_bytes f (count_failure (unexpected_blocking_action f.relative_path) t))

  unfoldable pub run_file : PlannedFile → Tally → Action Tally
  unfolding run_action
  run_file f t = run_action f.action f t

  -- The loop: `at` boundaries were passed; the second part of the result is `cancelled`.
  unfoldable pub run_files : (ℕ → Bool) → ℕ → List PlannedFile → Tally → Action (Tally × Bool)
  unfolding run_file
  run_files cancel_requested at [] t = pure (t, false)
  run_files cancel_requested at (f ∷ fs) t =
      if cancel_requested at
      then pure (t, true)
      else do t' ← run_file f t; run_files cancel_requested (suc at) fs t'

unfoldable pub job_outcome : Bool → ℕ → ℕ → JobOutcome
job_outcome was_cancelled files_failed unsupported_count =
    if was_cancelled
    then cancelled
    else if not (files_failed == 0)
    then failed
    else if not (unsupported_count == 0)
    then completed_with_warnings
    else completed

unfoldable pub result_of : Plan → Tally × Bool → JobRunResult
unfolding job_outcome
result_of plan (t, was_cancelled) = record {
  outcome = job_outcome was_cancelled t.files_failed plan.unsupported_count;
  files_verified = t.files_verified;
  files_copied = t.files_copied;
  files_skipped = t.files_skipped;
  files_failed = t.files_failed;
  bytes_copied = t.bytes_copied;
  failures = t.failures;
}

module _ (sha : Sha256) (env : Environment) (chunk_bytes retries : ℕ)
    (cancel_requested : ℕ → Bool) where
  -- The result, and the calls of `on_progress`.
  unfoldable pub run_job : Text → Text → Text → Plan → Action (JobRunResult × List Progress)
  unfolding run_files result_of
  run_job job_id source_root object_store_root plan = if plan.blocked then throw value_error else do
    end ←
        run_files sha env chunk_bytes retries job_id source_root object_store_root
          (length plan.files) (sum_p (λ _. true) (λ f. f.planned_size_bytes) plan.files)
          cancel_requested 0 plan.files empty_tally
    pure (result_of plan end, end.0.progress)
