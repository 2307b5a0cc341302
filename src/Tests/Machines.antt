-- ===== src/Tests/Machines.antt =====
-- Examples for the state machine, the object paths and the job ids.
use pi_mobile_photobackup.Prelude.{
  suc, ◌≡◌, refl, ◌≢◌, codes, false, none, some, [], ◌∷◌, ◌++◌, arith,
}
use pi_mobile_photobackup.Machine
use pi_mobile_photobackup.Machine.{
  BackupState, idle, source_detected, source_mounting, source_ready, preflight_scanning,
  backup_completed, preflight_hashing, preflight_blocked, preflight_capacity_check,
  backup_verifying, recovery_required, new_machine, JobStateMachine,
}
use pi_mobile_photobackup.Machine.Graph.{
  start, step, ◌⟶*◌, is_backing_up, is_completed, no_backup_before_capacity_check,
  no_completion_before_verifying, ⟶*-idle,
}
use pi_mobile_photobackup.Machine.Guard.{attempt_all}
use pi_mobile_photobackup.ObjectStore
use pi_mobile_photobackup.ObjectStore.{object_path, partial_path}
use pi_mobile_photobackup.ObjectStore.Paths.{object_path-injective, object_path-ne-partial_path}
use pi_mobile_photobackup.Manifest.{
  Manifest, empty_manifest, create_backup_job, count_jobs_for_date,
}
use pi_mobile_photobackup.Engine.{Now, pad3, generate_job_id}
use pi_mobile_photobackup.Engine.JobIds.{Numbered, create_backup_job-generate_job_id}
use pi_mobile_photobackup.Tests.{toy_digest, photo}

no_backup_before_capacity_check_example : is_backing_up source_mounting ≡ false
unfolding Machine.BackupState-discrete Machine.state_value Machine.allowed_targets Machine.state_eq
    Machine.state_in Machine.can_transition Machine.transition
no_backup_before_capacity_check_example =
    no_backup_before_capacity_check {t = source_mounting}
      (step {t = source_detected} (step {t = idle} start refl refl) refl refl)

no_completion_before_verifying_example : is_completed source_mounting ≡ false
unfolding Machine.BackupState-discrete Machine.state_value Machine.allowed_targets Machine.state_eq
    Machine.state_in Machine.can_transition Machine.transition
no_completion_before_verifying_example =
    no_completion_before_verifying {t = source_mounting}
      (step {t = source_detected} (step {t = idle} start refl refl) refl refl)

⟶*-idle_example : backup_verifying ⟶* idle
⟶*-idle_example = ⟶*-idle backup_verifying

abbrev tried : JobStateMachine
tried = attempt_all (source_detected ∷ backup_completed ∷ source_mounting ∷ []) new_machine

photo_path : object_path (codes "/o") (toy_digest photo) ≡ some (codes "/o/aa/aa/aaaaefg")
unfolding ObjectStore.object_relative_path ObjectStore.object_path ObjectStore.partial_path
photo_path = refl

photo_partial :
    partial_path (codes "/o") (toy_digest photo) ≡ some (codes "/o/aa/aa/aaaaefg.aethereal-partial")
unfolding ObjectStore.object_relative_path ObjectStore.object_path ObjectStore.partial_path
photo_partial = refl

object_path-injective_example : toy_digest photo ≡ toy_digest photo
object_path-injective_example =
    object_path-injective (codes "/o") (toy_digest photo) (toy_digest photo)
      (codes "/o/aa/aa/aaaaefg") (omega arith) (omega arith) photo_path photo_path

object_path-ne-partial_path_example :
    codes "/o/aa/aa/aaaaefg" ≢ codes "/o/aa/aa/aaaaefg.aethereal-partial"
object_path-ne-partial_path_example =
    object_path-ne-partial_path (codes "/o") (toy_digest photo) (toy_digest photo)
      (codes "/o/aa/aa/aaaaefg") (codes "/o/aa/aa/aaaaefg.aethereal-partial") (omega arith)
      (omega arith) refl refl photo_path photo_partial

abbrev today : Now
today = record { compact = codes "20260102"; year = codes "2026"; day = codes "2026-01-02" }

-- One job of the day is there already.
abbrev one_today : Manifest
one_today = record empty_manifest {
  jobs =
      record {
        job_id = codes "20260102-001";
        state = codes "IDLE";
        session_path = codes "/b";
        counts = none;
      }
      ∷ [];
}

one_today-Numbered : Numbered (codes "20260102" ++ codes "-") one_today
unfolding pad3 count_jobs_for_date
one_today-Numbered = ((λ s. (1, omega arith, refl)), tt)

create_backup_job-generate_job_id_example :
    (m' : Manifest) × (create_backup_job
        (generate_job_id today one_today)
        (codes "BACKUP_COPYING")
        (codes "/b")
        one_today
      ≡ some m')
    × (count_jobs_for_date (codes "20260102" ++ codes "-") m'
        ≡ suc (count_jobs_for_date (codes "20260102" ++ codes "-") one_today))
    × Numbered (codes "20260102" ++ codes "-") m'
create_backup_job-generate_job_id_example =
    create_backup_job-generate_job_id today one_today (codes "BACKUP_COPYING") (codes "/b")
      one_today-Numbered
