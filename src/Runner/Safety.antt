-- ===== src/Runner/Safety.antt =====
-- The object store and its rows during a whole job.
use pi_mobile_photobackup.Prelude.{
  ℕ, suc, ◌≡◌, Text, Bool, some, List, [], ◌∷◌, All, Bool-cases, inl, inr, codes, ◌++◌,
}
use pi_mobile_photobackup.Identity.{Sha256, ContentIdentity}
use pi_mobile_photobackup.Effects.{Error, Result, ok, raise, require, ◌>>=◌, assertion_error}
use pi_mobile_photobackup.World.{World, Environment, Action, is_os_error}
use pi_mobile_photobackup.World.Rules.{
  Prop, After, Spec, Spec-pure, Spec-throw, Spec-require, Spec-if, Spec-bind, Spec-given,
}
use pi_mobile_photobackup.World.Store.{IsDigest, IsObjectPath, Sound}
use pi_mobile_photobackup.Planner.{
  FileAction, copy_verify_object_and_link, link_existing_verified_object, link_new_object_same_job,
  skip_unsupported, block_conflict, block_unreadable, PlannedFile, Plan,
}
use pi_mobile_photobackup.Copier.Crash.{link_verified_object_lem}
use pi_mobile_photobackup.Copier.Safety.{copy_verify_finalize_lem}
use pi_mobile_photobackup.Runner
use pi_mobile_photobackup.Runner.{
  JobRunResult, Progress, Tally, empty_tally, report, count_copy, count_link, count_failure,
  source_error, link_failed, is_link_error, try_except, copy_file, link_file, run_action, run_file,
  run_files, result_of, run_job,
}

module _ {A B : Type 0} {P R : Prop} {Q : A → Prop} {T : B → Prop} where
  pub Spec-try_except :
      (handles : Error → Bool) (m : Action A) (body : A → Action B) (handler : Error → Action B)
      → Spec P m Q R
      → ((a : A) → Spec (Q a) (body a) T R)
      → ((e : Error) → Spec R (handler e) T R)
      → Spec P (try_except handles m body handler) T R
  unfolding try_except
  Spec-try_except handles m body handler sm sb sh = record {
    at = λ w p. go (m w).0 (m w).1 (sm.at w p);
  }
    where
      go :
          (r : Result A) (w : World)
          → After Q R (r, w)
          → After T R (Runner.resume handles body handler (r, w))
      go (ok a) w h = (sb a).at w h
      go (raise e) w h = elim (Bool-cases (handles e)) [
        | inl yes_ ↦ rw yes_ ((sh e).at w h)
        | inr no_ ↦ rw no_ h
      ]

-- The file's digest is one, and its session path is no object path.
pub record CanRun (root : Text) (f : PlannedFile) : Type 0 where
  pub digest : (c : ContentIdentity) → f.identity ≡ some c → IsDigest c.sha256
  pub session : IsObjectPath root f.session_path → ⊥

module _ (sha : Sha256) (env : Environment) (chunk_bytes retries : ℕ)
    (root job_id source_root : Text) where
  abbrev S : Prop
  S = Sound sha root

  module _ (total total_bytes : ℕ) where
    copy_file_lem :
        (f : PlannedFile) (t : Tally) (c : ContentIdentity)
        → f.identity ≡ some c
        → CanRun root f
        → Spec S
            (copy_file sha env chunk_bytes retries job_id source_root root total total_bytes f c t)
            (λ _. S)
            S
    unfolding copy_file
    copy_file_lem f t c e h =
        Spec-try_except is_os_error _ _ _
          (copy_verify_finalize_lem sha env chunk_bytes root job_id
            (source_root ++ (codes "/" ++ f.relative_path)) f.session_path c (h.digest c e)
            h.session retries)
          (λ result. Spec-pure _ (λ f d h. h.0)) (λ e. Spec-pure _ (λ f d h. h))

    link_file_lem :
        (f : PlannedFile) (action : FileAction) (t : Tally) (c : ContentIdentity)
        → f.identity ≡ some c
        → CanRun root f
        → Spec S
            (link_file sha env chunk_bytes retries job_id source_root root total total_bytes f
              action c t)
            (λ _. S)
            S
    unfolding link_file
    link_file_lem f action t c e h =
        Spec-try_except is_link_error _ _ _
          (link_verified_object_lem sha root job_id c f.session_path (h.digest c e) h.session)
          (λ result. Spec-pure _ (λ f d h. h.0)) (λ e. Spec-pure _ (λ f d h. h))

    with_identity :
        (f : PlannedFile) (m : ContentIdentity → Action Tally)
        → ((c : ContentIdentity) → f.identity ≡ some c → Spec S (m c) (λ _. S) S)
        → Spec S (require assertion_error f.identity >>= m) (λ _. S) S
    with_identity f m s =
        Spec-bind (λ c k d. S k d × (f.identity ≡ some c))
          (Spec-require _ _ (λ k d h. h) (λ c e k d h. (h, e))) λ c. Spec-given _ λ e. s c e

    run_file_lem :
        (f : PlannedFile) (t : Tally)
        → CanRun root f
        → Spec S
            (run_file sha env chunk_bytes retries job_id source_root root total total_bytes f t)
            (λ _. S)
            S
    unfolding run_file run_action
    run_file_lem f t h = by f.action
      where
        by :
            (action : FileAction)
            → Spec S
                (run_action sha env chunk_bytes retries job_id source_root root total total_bytes
                  action f t)
                (λ _. S)
                S
        by copy_verify_object_and_link =
            with_identity f
              (λ c.
                copy_file sha env chunk_bytes retries job_id source_root root total total_bytes f c
                  t)
              λ c e. copy_file_lem f t c e h
        by link_existing_verified_object =
            with_identity f
              (λ c.
                link_file sha env chunk_bytes retries job_id source_root root total total_bytes f
                  link_existing_verified_object c t)
              λ c e. link_file_lem f link_existing_verified_object t c e h
        by link_new_object_same_job =
            with_identity f
              (λ c.
                link_file sha env chunk_bytes retries job_id source_root root total total_bytes f
                  link_new_object_same_job c t)
              λ c e. link_file_lem f link_new_object_same_job t c e h
        by skip_unsupported = Spec-pure _ (λ k d h. h)
        by block_conflict = Spec-pure _ (λ k d h. h)
        by block_unreadable = Spec-pure _ (λ k d h. h)

    run_files_lem :
        (cancel_requested : ℕ → Bool) (at : ℕ) (fs : List PlannedFile) (t : Tally)
        → All (CanRun root) fs
        → Spec S
            (run_files sha env chunk_bytes retries job_id source_root root total total_bytes
              cancel_requested at fs t)
            (λ _. S)
            S
    unfolding run_files
    run_files_lem cancel_requested at [] t h = Spec-pure _ (λ k d h. h)
    run_files_lem cancel_requested at (f ∷ fs) t h =
        Spec-if (cancel_requested at) _ _ (λ _. Spec-pure _ (λ k d h. h))
          (λ _.
            Spec-bind (λ _. S) (run_file_lem f t h.0)
              λ t'. run_files_lem cancel_requested (suc at) fs t' h.1)

  pub run_job_lem :
      (cancel_requested : ℕ → Bool) (plan : Plan)
      → All (CanRun root) plan.files
      → Spec S
          (run_job sha env chunk_bytes retries cancel_requested job_id source_root root plan)
          (λ _. S)
          S
  unfolding run_job
  run_job_lem cancel_requested plan h =
      Spec-if plan.blocked _ _ (λ _. Spec-throw _ (λ k d h. h))
        (λ _.
          Spec-bind (λ _. S) (run_files_lem _ _ cancel_requested 0 plan.files empty_tally h)
            λ _. Spec-pure _ (λ k d h. h))

  -- If each file of a plan has a digest of the right form and a session path that is no object
  -- path, a job over the plan keeps the object store and its VERIFIED rows sound: when it returns,
  -- when it raises, and wherever the power fails.
  pub run_job-crash_safe :
      (cancel_requested : ℕ → Bool) (plan : Plan) (w : World)
      → All (CanRun root) plan.files
      → Sound sha root w.files w.db
      → After
          (λ _. S)
          S
          (run_job sha env chunk_bytes retries cancel_requested job_id source_root root plan w)
  run_job-crash_safe cancel_requested plan w can h = (run_job_lem cancel_requested plan can).at w h
