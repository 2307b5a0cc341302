-- ===== src/Runner/Accounts.antt =====
-- The result of a job and the files of its plan.
use pi_mobile_photobackup.Prelude.{
  ℕ, suc, ◌+◌, ◌≤◌, ◌≡◌, refl, ◌≢◌, subst, Text, Bool, true, false, List, [], ◌∷◌, arith, length,
}
use pi_mobile_photobackup.Identity.{Sha256}
use pi_mobile_photobackup.Effects
use pi_mobile_photobackup.Effects.{pure, throw, ◌>>=◌, value_error}
use pi_mobile_photobackup.World.{World, Environment}
use pi_mobile_photobackup.World.Rules.{
  After, Spec, Spec-pure, Spec-throw, Spec-if, Spec-bind, Spec-weaken, Spec-given,
}
use pi_mobile_photobackup.Planner.{PlannedFile, Plan}
use pi_mobile_photobackup.Planner.Counts.{having, is_skip}
use pi_mobile_photobackup.Runner
use pi_mobile_photobackup.Runner.{
  JobOutcome, JobRunResult, Progress, Tally, empty_tally, run_file, run_files, job_outcome,
  result_of, run_job,
}
use pi_mobile_photobackup.Runner.Tallies.{Any, Adds, settled, weight, run_file-Adds}

-- From one tally to a later one, over these files, all of them unless the job was cancelled.
record Went (fs : List PlannedFile) (t t' : Tally) (was_cancelled : Bool) : Type 0 where
  all : was_cancelled ≡ false → settled t' + having is_skip fs ≡ settled t + length fs
  at_most : settled t' ≤ settled t + length fs
  listed : t'.files_failed + length t.failures ≡ t.files_failed + length t'.failures
  copies : t'.files_copied + t.files_verified ≤ t'.files_verified + t.files_copied

module _ (fs : List PlannedFile) (t : Tally) where
  Went-nowhere : Went fs t t true
  Went-nowhere = record {
    all = λ e. absurd (cc e);
    at_most = omega arith;
    listed = omega arith;
    copies = omega arith;
  }

Went-cons :
    (f : PlannedFile) (fs : List PlannedFile) (t u t' : Tally) (was_cancelled : Bool)
    → Adds (weight f.action) t u
    → Went fs u t' was_cancelled
    → Went (f ∷ fs) t t' was_cancelled
Went-cons f fs t u t' was_cancelled a w = record {
  all = λ e. ground (arith, a.settles, w.all e);
  at_most = ground (arith, a.settles, w.at_most);
  listed = omega (arith, a.listed, w.listed);
  copies = omega (arith, a.copies, w.copies);
}

-- What a result says of the plan's files.
pub record Accounts (plan : Plan) (job : JobRunResult) : Type 0 where
  pub all_settled :
      job.outcome ≢ Runner.cancelled
      → job.files_verified + job.files_failed + having is_skip plan.files ≡ length plan.files
  pub at_most : job.files_verified + job.files_failed ≤ length plan.files
  pub listed : job.files_failed ≡ length job.failures
  pub copied : job.files_copied ≤ job.files_verified
  pub success :
      job.outcome ≡ Runner.completed → (job.files_failed ≡ 0) × (plan.unsupported_count ≡ 0)
  pub failure : job.outcome ≡ Runner.failed → 1 ≤ job.files_failed

module _ (sha : Sha256) (env : Environment) (chunk_bytes retries : ℕ)
    (job_id source_root root : Text) (cancel_requested : ℕ → Bool) where
  run_files-Went :
      (total total_bytes at : ℕ) (fs : List PlannedFile) (t : Tally)
      → Spec Any
          (run_files sha env chunk_bytes retries job_id source_root root total total_bytes
            cancel_requested at fs t)
          (λ r _ _. Went fs t r.0 r.1)
          Any
  unfolding run_files
  run_files-Went total total_bytes at [] t = Spec-pure _ (λ _ _ _. record {
    all = λ e. refl;
    at_most = omega arith;
    listed = omega arith;
    copies = omega arith;
  })
  run_files-Went total total_bytes at (f ∷ fs) t =
      Spec-if (cancel_requested at) _ _
        (λ _. Spec-pure (t, true) (λ _ _ _. Went-nowhere (f ∷ fs) t))
        (λ _.
          Spec-bind (λ u _ _. Adds (weight f.action) t u)
            (run_file-Adds sha env chunk_bytes retries job_id source_root root total total_bytes f
              t)
            λ u.
              Spec-weaken (λ _ _ a. (tt, a)) (λ _ _ _ q. q) (λ _ _ q. q)
                (Spec-given {P = Any} (Adds (weight f.action) t u) λ a.
                  Spec-weaken (λ _ _ q. q) (λ r _ _ w. Went-cons f fs t u r.0 r.1 a w) (λ _ _ q. q)
                    (run_files-Went total total_bytes (suc at) fs u)))

  result_of-Accounts :
      (plan : Plan) (t : Tally) (was_cancelled : Bool)
      → Went plan.files empty_tally t was_cancelled
      → Accounts plan (result_of plan (t, was_cancelled))
  unfolding result_of job_outcome
  result_of-Accounts plan t was_cancelled w = record {
    all_settled = λ h. ground (arith, w.all, h);
    at_most = omega (arith, w.at_most);
    listed = omega (arith, w.listed);
    copied = omega (arith, w.copies);
    success = λ h. ground (arith, h);
    failure = λ h. ground (arith, h);
  }

  run_job-Spec :
      (plan : Plan)
      → Spec Any
          (run_job sha env chunk_bytes retries cancel_requested job_id source_root root plan)
          (λ r _ _. Accounts plan r.0)
          Any
  unfolding run_job
  run_job-Spec plan =
      Spec-if plan.blocked _ _ (λ _. Spec-throw _ (λ _ _ _. tt))
        (λ _.
          Spec-bind (λ r _ _. Went plan.files empty_tally r.0 r.1)
            (run_files-Went _ _ 0 plan.files empty_tally)
            λ r. Spec-pure _ (λ _ _ w. result_of-Accounts plan r.0 r.1 w))

  -- The result of a job that returns accounts for the files of its plan. As many files failed as
  -- failures are listed. The files verified and failed are at most those of the plan, and unless
  -- the job was cancelled they and the skipped ones are all of them. No more files were copied
  -- than verified. A completed job has no failed file and its plan counts none unsupported; a
  -- failed job has a failed file.
  pub run_job-Accounts :
      (plan : Plan) (w w' : World) (job : JobRunResult) (progress : List Progress)
      → run_job sha env chunk_bytes retries cancel_requested job_id source_root root plan w
        ≡ (Effects.ok (job, progress), w')
      → Accounts plan job
  run_job-Accounts plan w w' job progress e =
      subst (λ x. After (λ r _ _. Accounts plan r.0) Any x) e ((run_job-Spec plan).at w tt)
