-- ===== src/Runner/Tallies.antt =====
-- The counters of a job and its files.
use pi_mobile_photobackup.Prelude.{
  ℕ, ◌+◌, ◌≤◌, ◌≡◌, refl, Text, Option, [], ◌∷◌, arith, length, length-append, if◌then◌else◌,
}
use pi_mobile_photobackup.Identity.{Sha256, ContentIdentity}
use pi_mobile_photobackup.Effects.{require, ◌>>=◌, assertion_error}
use pi_mobile_photobackup.World.{Environment, Action, is_os_error}
use pi_mobile_photobackup.World.Rules.{Prop, Spec, Spec-pure, Spec-bind, Spec-any}
use pi_mobile_photobackup.Planner.{
  FileAction, copy_verify_object_and_link, link_existing_verified_object, link_new_object_same_job,
  skip_unsupported, block_conflict, block_unreadable, PlannedFile,
}
use pi_mobile_photobackup.Planner.Counts.{is_skip}
use pi_mobile_photobackup.Copier
use pi_mobile_photobackup.Copier.{
  CopyOutcome, CopyResult, copy_verify_finalize, link_verified_object,
}
use pi_mobile_photobackup.Runner
use pi_mobile_photobackup.Runner.{
  JobOutcome, Failure, JobRunResult, Progress, Tally, empty_tally, report, count_copy, count_link,
  count_failure, source_error, copy_failed, link_failed, is_link_error, try_except, copy_file,
  link_file, run_action, run_file, run_files, job_outcome, result_of, run_job,
}
use pi_mobile_photobackup.Runner.Safety.{Spec-try_except}

abbrev pub Any : Prop
Any _ _ = Unit {0}

-- How many files were verified or failed.
abbrev pub settled : Tally → ℕ
settled t = t.files_verified + t.files_failed

-- From one tally to a later one, `n` more files are settled.
pub record Adds (n : ℕ) (t t' : Tally) : Type 0 where
  pub settles : settled t' ≡ settled t + n
  pub listed : t'.files_failed + length t.failures ≡ t.files_failed + length t'.failures
  pub copies : t'.files_copied + t.files_verified ≤ t'.files_verified + t.files_copied

Adds-refl : (t : Tally) → Adds 0 t t
Adds-refl t = record { settles = omega arith; listed = omega arith; copies = omega arith }

count_failure-Adds : (f : Failure) (t : Tally) → Adds 1 t (count_failure f t)
unfolding count_failure
count_failure-Adds f t = record {
  settles = omega arith;
  listed = omega (arith, length-append t.failures (f ∷ []));
  copies = omega arith;
}

count_copy-Adds : (path : Text) (r : CopyResult) (t : Tally) → Adds 1 t (count_copy path r t)
unfolding count_copy
count_copy-Adds path r t = by r.outcome refl
  where
    by : (o : CopyOutcome) → r.outcome ≡ o → Adds 1 t (count_copy path r t)
    by Copier.verified e =
        rw (count_copy, e)
          (record { settles = omega arith; listed = omega arith; copies = omega arith })
    by Copier.source_unstable e =
        rw (count_copy, e) (count_failure-Adds (copy_failed path Copier.source_unstable) t)
    by Copier.destination_mismatch e =
        rw (count_copy, e) (count_failure-Adds (copy_failed path Copier.destination_mismatch) t)
    by Copier.failed e = rw (count_copy, e) (count_failure-Adds (copy_failed path Copier.failed) t)

count_link-Adds : (action : FileAction) (t : Tally) → Adds 1 t (count_link action t)
unfolding count_link
count_link-Adds action t = record {
  settles = omega arith;
  listed = omega arith;
  copies = omega arith;
}

report-Adds :
    (n total total_bytes : ℕ) (f : PlannedFile) (t t' : Tally)
    → Adds n t t'
    → Adds n t (report total total_bytes f t')
unfolding report
report-Adds n total total_bytes f t t' h = record {
  settles = h.settles;
  listed = h.listed;
  copies = h.copies;
}

abbrev pub weight : FileAction → ℕ
weight action = if is_skip action then 0 else 1

module _ (sha : Sha256) (env : Environment) (chunk_bytes retries : ℕ)
    (job_id source_root root : Text) (total total_bytes : ℕ) where
  with_identity :
      (t : Tally) (o : Option ContentIdentity) (m : ContentIdentity → Action Tally)
      → ((c : ContentIdentity) → Spec Any (m c) (λ t' _ _. Adds 1 t t') Any)
      → Spec Any (require assertion_error o >>= m) (λ t' _ _. Adds 1 t t') Any
  with_identity t o m s = Spec-bind (λ _. Any) Spec-any s

  copy_file-Adds :
      (f : PlannedFile) (t : Tally) (c : ContentIdentity)
      → Spec Any
          (copy_file sha env chunk_bytes retries job_id source_root root total total_bytes f c t)
          (λ t' _ _. Adds 1 t t')
          Any
  unfolding copy_file
  copy_file-Adds f t c =
      Spec-try_except {Q = λ _. Any} is_os_error _ _ _ Spec-any
        (λ r.
          Spec-pure _
            (λ _ _ _. report-Adds 1 total total_bytes f t _ (count_copy-Adds f.relative_path r t)))
        (λ e. Spec-pure _ (λ _ _ _. count_failure-Adds (source_error f.relative_path e) t))

  link_file-Adds :
      (f : PlannedFile) (action : FileAction) (t : Tally) (c : ContentIdentity)
      → Spec Any
          (link_file sha env chunk_bytes retries job_id source_root root total total_bytes f action
            c t)
          (λ t' _ _. Adds 1 t t')
          Any
  unfolding link_file
  link_file-Adds f action t c =
      Spec-try_except {Q = λ _. Any} is_link_error _ _ _ Spec-any
        (λ r.
          Spec-pure _ (λ _ _ _. report-Adds 1 total total_bytes f t _ (count_link-Adds action t)))
        (λ e. Spec-pure _ (λ _ _ _.
          report-Adds 1 total total_bytes f t _
            (count_failure-Adds (link_failed f.relative_path e) t)))

  pub run_file-Adds :
      (f : PlannedFile) (t : Tally)
      → Spec Any
          (run_file sha env chunk_bytes retries job_id source_root root total total_bytes f t)
          (λ t' _ _. Adds (weight f.action) t t')
          Any
  unfolding run_file run_action
  run_file-Adds f t = by f.action
    where
      by :
          (action : FileAction)
          → Spec Any
              (run_action sha env chunk_bytes retries job_id source_root root total total_bytes
                action f t)
              (λ t' _ _. Adds (weight action) t t')
              Any
      by copy_verify_object_and_link =
          with_identity t f.identity
            (λ c.
              copy_file sha env chunk_bytes retries job_id source_root root total total_bytes f c t)
            (copy_file-Adds f t)
      by link_existing_verified_object =
          with_identity t f.identity
            (λ c.
              link_file sha env chunk_bytes retries job_id source_root root total total_bytes f
                link_existing_verified_object c t)
            (link_file-Adds f link_existing_verified_object t)
      by link_new_object_same_job =
          with_identity t f.identity
            (λ c.
              link_file sha env chunk_bytes retries job_id source_root root total total_bytes f
                link_new_object_same_job c t)
            (link_file-Adds f link_new_object_same_job t)
      by skip_unsupported =
          Spec-pure _ (λ _ _ _. report-Adds 0 total total_bytes f t t (Adds-refl t))
      by block_conflict = Spec-pure _ (λ _ _ _.
          report-Adds 1 total total_bytes f t _
            (count_failure-Adds (Runner.unexpected_blocking_action f.relative_path) t))
      by block_unreadable = Spec-pure _ (λ _ _ _.
          report-Adds 1 total total_bytes f t _
            (count_failure-Adds (Runner.unexpected_blocking_action f.relative_path) t))
