-- ===== src/Engine.antt =====
-- aethereal/backup/engine.py: the engine owns the state machine, runs preflights and jobs, keeps the
-- job rows and publishes events. The time, the scan of the card and the disk's usage are given by
-- the caller. The proofs are in the children.
pub mod JobIds
pub mod Rules
pub mod Runs
pub mod Backup
use pi_mobile_photobackup.Prelude.{
  ℕ, zero, suc, ◌+◌, ◌-◌, ◌/◌, ◌%◌, Text, codes, Bool, true, false, not, ◌&&◌, ◌||◌, Option, none,
  some, List, [], ◌∷◌, ◌++◌, map, length, replicate, ltb, leb, ◌==◌, text_eq, if◌then◌else◌,
}
use pi_mobile_photobackup.Identity.{Sha256, ContentIdentity}
use pi_mobile_photobackup.Classification.{ClassificationInput}
use pi_mobile_photobackup.Effects.{
  Error, Result, ok, raise, Exec, pure, throw, gets, require, ◌>>=◌, ◌>>◌, value_error,
  assertion_error, integrity_error, invalid_transition,
}
use pi_mobile_photobackup.Machine
use pi_mobile_photobackup.Machine.{
  BackupState, idle, source_detected, source_mounting, source_ready, preflight_scanning,
  preflight_hashing, preflight_comparing, preflight_capacity_check, preflight_ready,
  preflight_warning, preflight_blocked, backup_queued, backup_copying, backup_cancelling,
  backup_verifying, backup_completed, backup_completed_with_warnings, backup_cancelled,
  backup_failed, source_safe_to_remove, recovery_required, state_value, JobStateMachine, Moved,
  moved, invalid_transition as refused,
}
use pi_mobile_photobackup.Manifest.{
  Manifest, JobCounts, has_verified_object, create_backup_job, count_jobs_for_date,
  destination_totals, list_incomplete_jobs, set_backup_job_state, finish_backup_job,
}
use pi_mobile_photobackup.World.{World, Environment, Action, on_db, try_db}
use pi_mobile_photobackup.Preflight
use pi_mobile_photobackup.Preflight.{
  PreflightOutcome, ready, warning, blocked, PreflightResult, Preflight, done, assertion_failed,
  key_error, invalid, DiskUsage, Margins, run_preflight,
}
use pi_mobile_photobackup.Runner
use pi_mobile_photobackup.Runner.{JobOutcome, JobRunResult, Progress, run_job}
use pi_mobile_photobackup.Recovery.{RecoveryReport, recover_destination}

-- The events that the engine publishes, by their types and the details that matter.
pub data Event : Type 0 where
  system_state_changed : BackupState → BackupState → Event
  preflight_started preflight_completed preflight_completed_blocked : Event
  backup_started backup_cancelled_event backup_failed_event : Text → Event
  backup_completed_event : Text → Event
  backup_progress : Text → Progress → Event
  recovery_started : Event
  recovery_completed : RecoveryReport → Event

pub record Engine : Type 0 where
  pub world : World
  pub machine : JobStateMachine
  pub events : List Event
  pub has_cancel_token : Bool
  pub last_scan : Option (Text × ℕ)

abbrev pub Run : Type 0 → Type 0
Run A = Exec Engine A

abbrev lifted : {A : Type 0} → Engine → Result A × World → Result A × Engine
lifted s (r, w) = (r, record s { world = w })

-- A program on the world, run by the engine.
unfoldable pub on_world : {A : Type 0} → Action A → Run A
on_world m s = lifted s (m s.world)

unfoldable pub emit : Event → Run (Unit {0})
emit e s = (ok tt, record s { events = s.events ++ e ∷ [] })

unfoldable pub stepped : Engine → BackupState → Moved × JobStateMachine → Result (Unit {0}) × Engine
stepped s target (moved t, m) = (
  ok tt,
  record s { machine = m; events = s.events ++ system_state_changed s.machine.state target ∷ [] },
)
stepped s target (refused _ _, m) = (raise invalid_transition, record s { machine = m })

-- `self._sm.transition(target)`, with `_on_transition` publishing the change.
unfoldable pub transition : BackupState → Run (Unit {0})
unfolding stepped
transition target s = stepped s target (Machine.transition target s.machine)

unfoldable pub transitions : List BackupState → Run (Unit {0})
unfolding transition pure
transitions [] = pure tt
transitions (t ∷ ts) = do transition t; transitions ts

-- `_RESET_ROUTES.get(state)`
unfoldable pub reset_route : BackupState → Option (List BackupState)
reset_route idle = some []
reset_route source_safe_to_remove = some (idle ∷ [])
reset_route preflight_blocked = some (idle ∷ [])
reset_route backup_failed = some (source_safe_to_remove ∷ idle ∷ [])
reset_route backup_cancelled = some (source_safe_to_remove ∷ idle ∷ [])
reset_route _ = none

unfoldable pub reset : Run (Unit {0})
unfolding reset_route transitions gets require
reset = do
  state ← gets (λ s. s.machine.state)
  route ← require value_error (reset_route state)
  transitions route

-- The decimal digits of a number; fuel above the number suffices.
unfoldable pub digits : ℕ → ℕ → Text
digits zero n = []
digits (suc fuel) n =
    let higher = digits fuel (n / 10) in
    if ltb n 10 then (48 + n) ∷ [] else higher ++ (48 + n % 10) ∷ []

-- `f"{n:03d}"`
unfoldable pub pad3 : ℕ → Text
unfolding digits
pad3 n = let ds = digits (suc n) n in replicate (3 - length ds) 48 ++ ds

-- `now`: its `%Y%m%d`, `%Y` and `%Y-%m-%d`.
pub record Now : Type 0 where
  pub compact : Text
  pub year : Text
  pub day : Text

unfoldable pub generate_job_id : Now → Manifest → Text
unfolding pad3
generate_job_id now m =
    let prefix = now.compact ++ codes "-" in prefix ++ pad3 (count_jobs_for_date prefix m + 1)

abbrev is_kept : ℕ → Bool
is_kept c =
    (leb 65 c && leb c 90)
    || (leb 97 c && leb c 122)
    || (leb 48 c && leb c 57)
    || c == 95
    || c == 45

or_source : Text → Text
or_source [] = codes "SOURCE"
or_source (c ∷ cs) = c ∷ cs

unfoldable pub sanitize : Text → Text
unfolding or_source
sanitize name = or_source (map (λ c. if is_kept c then c else 95) name)

unfoldable pub session_root_of : Text → Now → Text → Text → Text
unfolding sanitize
session_root_of backup_root now job_id logical_source_name =
    backup_root
    ++ codes "/"
    ++ now.year
    ++ codes "/"
    ++ now.day
    ++ codes "/"
    ++ job_id
    ++ codes "_"
    ++ sanitize logical_source_name

-- What the engine was built with.
pub record Config : Type 0 where
  pub backup_root : Text
  pub object_store_root : Text
  pub margins : Margins
  pub retries : ℕ
  pub chunk_bytes : ℕ

-- What one call finds: the time, whether the clock is trusted, the scan of the card, the disk.
pub record Found : Type 0 where
  pub now : Now
  pub clock_trusted : Bool
  pub inputs : List ClassificationInput
  pub usage : DiskUsage

unfoldable pub last_source_scan : Text → Engine → Option ℕ
last_source_scan source_root s = elim s.last_scan [
  | none ↦ none
  | some scan ↦ if text_eq scan.0 source_root then some scan.1 else none
]

pub record EngineResult : Type 0 where
  pub state : BackupState
  pub preflight_outcome : PreflightOutcome
  pub preflight : PreflightResult
  pub job : Option JobRunResult
  pub job_id : Option Text

-- `_JOB_OUTCOME_TO_STATE`; a cancelled job does not come here.
unfoldable pub final_state_of : JobOutcome → BackupState
final_state_of Runner.completed = backup_completed
final_state_of Runner.completed_with_warnings = backup_completed_with_warnings
final_state_of _ = backup_failed

unfoldable pub counts_of : JobRunResult → JobCounts
counts_of job = record {
  files_copied = job.files_copied;
  files_skipped = job.files_skipped;
  files_failed = job.files_failed;
  files_verified = job.files_verified;
  copied_bytes = job.bytes_copied;
}

unfoldable pub set_last_scan : Text → ℕ → Run (Unit {0})
set_last_scan root n s = (ok tt, record s { last_scan = some (root, n) })

-- `finally: self._cancel_token = None`
unfoldable pub with_token : {A : Type 0} → Run A → Run A
with_token m s =
    let (r, s') = m (record s { has_cancel_token = true }) in
    (r, record s' { has_cancel_token = false })

-- What the backup root's file system and the manifest say.
pub record DestinationStatus : Type 0 where
  pub backup_root : Text
  pub present : Bool
  pub total_bytes : ℕ
  pub free_bytes : ℕ
  pub verified_object_count : ℕ
  pub backed_up_bytes : ℕ

no_usage : DiskUsage
no_usage = record { total_bytes = 0; free_bytes = 0 }

-- Whether the root is there, and its usage, are given.
unfoldable pub destination_status : Text → Bool → DiskUsage → Manifest → DestinationStatus
unfolding no_usage destination_totals
destination_status root present measured m =
    let usage = if present then measured else no_usage in
    let (count, bytes) = destination_totals m in
    record {
      backup_root = root;
      present = present;
      total_bytes = usage.total_bytes;
      free_bytes = usage.free_bytes;
      verified_object_count = count;
      backed_up_bytes = bytes;
    }

-- A preflight that could not be done raises.
unfoldable pub preflight_of : Preflight → Run PreflightResult
unfolding pure throw
preflight_of (done p) = pure p
preflight_of (invalid _) = throw value_error
preflight_of _ = throw assertion_error

unfoldable pub emit_all : List Event → Run (Unit {0})
emit_all es s = (ok tt, record s { events = s.events ++ es })

unfoldable pub created : Option Manifest → Option (Unit {0} × Manifest)
created none = none
created (some m) = some (tt, m)

module _ (sha : Sha256) (env : Environment) (config : Config) (cancel_requested : ℕ → Bool) where
  open config use {backup_root, object_store_root, margins, retries, chunk_bytes}

  unfoldable pub preflight_now : Found → Text → Run PreflightResult
  unfolding preflight_of gets
  preflight_now found session_root = do
    m ← gets (λ s. s.world.db)
    preflight_of (
        run_preflight (λ c. has_verified_object c m) none found.usage
          (record margins { metadata_estimate_bytes = 0 }) session_root found.inputs)

  unfoldable pub dry_run : Found → Text → Text → Run PreflightResult
  unfolding preflight_now emit set_last_scan
  dry_run found source_root name = do
    emit preflight_started
    job_id ← gets (λ s. generate_job_id found.now s.world.db)
    p ← preflight_now found (session_root_of backup_root found.now job_id name)
    set_last_scan source_root p.already_backed_up_bytes
    emit preflight_completed
    pure p

  unfoldable pub finish_row : Text → BackupState → JobRunResult → Run (Unit {0})
  unfolding counts_of on_world
  finish_row job_id state job =
      on_world (on_db (λ m. (tt, finish_backup_job job_id (state_value state) (counts_of job) m)))

  -- What `run_backup` returns at its end.
  unfoldable pub result_now : PreflightResult → JobRunResult → Text → Run EngineResult
  unfolding gets
  result_now p job job_id = gets (λ s. record {
    state = s.machine.state;
    preflight_outcome = p.outcome;
    preflight = p;
    job = some job;
    job_id = some job_id;
  })

  unfoldable pub after_cancel : PreflightResult → Text → JobRunResult → Run EngineResult
  unfolding finish_row transition emit result_now
  after_cancel p job_id job = do
    finish_row job_id backup_cancelled job
    transition backup_cancelling
    transition backup_cancelled
    emit (backup_cancelled_event job_id)
    transition source_safe_to_remove
    result_now p job job_id

  unfoldable pub announce : Text → Text → PreflightResult → JobOutcome → Run (Unit {0})
  unfolding emit set_last_scan transition
  announce source_root job_id p Runner.failed = emit (backup_failed_event job_id)
  announce source_root job_id p _ = do
    emit (backup_completed_event job_id)
    set_last_scan source_root p.source_bytes_scanned
    transition source_safe_to_remove

  unfoldable pub after_run : Text → PreflightResult → Text → JobRunResult → Run EngineResult
  unfolding transition final_state_of finish_row announce result_now
  after_run source_root p job_id job = do
    transition backup_verifying
    transition (final_state_of job.outcome)
    finish_row job_id (final_state_of job.outcome) job
    announce source_root job_id p job.outcome
    result_now p job job_id

  -- From the job's end on.
  unfoldable pub conclude :
      Text → PreflightResult → Text → JobRunResult → JobOutcome → Run EngineResult
  unfolding after_cancel after_run
  conclude source_root p job_id job Runner.cancelled = after_cancel p job_id job
  conclude source_root p job_id job _ = after_run source_root p job_id job

  unfoldable pub execute : Text → PreflightResult → Text → Text → Run EngineResult
  unfolding conclude with_token on_world transition emit emit_all created
  execute source_root p job_id session_root = do
    transition backup_queued
    on_world (
        try_db
          (λ m. created (create_backup_job job_id (state_value backup_copying) session_root m)))
    transition backup_copying
    emit (backup_started job_id)
    (job, progress) ← with_token (
        on_world (
          run_job sha env chunk_bytes retries cancel_requested job_id source_root object_store_root
            p.plan))
    emit_all (map (backup_progress job_id) progress)
    conclude source_root p job_id job job.outcome

  unfoldable pub is_blocked : PreflightOutcome → Bool
  is_blocked blocked = true
  is_blocked _ = false

  unfoldable pub ready_state : PreflightOutcome → BackupState
  ready_state warning = preflight_warning
  ready_state _ = preflight_ready

  unfoldable pub blocked_result : PreflightResult → Run EngineResult
  unfolding gets
  blocked_result p = gets (λ s. record {
    state = s.machine.state;
    preflight_outcome = blocked;
    preflight = p;
    job = none;
    job_id = none;
  })

  unfoldable pub run_backup : Found → Text → Text → Run EngineResult
  unfolding transitions transition emit preflight_now set_last_scan execute is_blocked ready_state
      blocked_result gets
  run_backup found source_root name = do
    transitions (source_detected ∷ source_mounting ∷ source_ready ∷ preflight_scanning ∷ [])
    emit preflight_started
    job_id ← gets (λ s. generate_job_id found.now s.world.db)
    let session_root = session_root_of backup_root found.now job_id name
    transitions (preflight_hashing ∷ preflight_comparing ∷ preflight_capacity_check ∷ [])
    p ← preflight_now found session_root
    set_last_scan source_root p.already_backed_up_bytes
    if is_blocked p.outcome || not found.clock_trusted
        then (do transition preflight_blocked; emit preflight_completed_blocked; blocked_result p)
        else do
          transition (ready_state p.outcome)
          emit preflight_completed
          execute source_root p job_id session_root

  unfoldable pub set_recovery_required : List Text → Action (Unit {0})
  unfolding pure
  set_recovery_required [] = pure tt
  set_recovery_required (job_id ∷ rest) = do
    on_db (λ m. (tt, set_backup_job_state job_id (state_value recovery_required) m))
    set_recovery_required rest

  unfoldable pub recover_on_startup : Run RecoveryReport
  unfolding emit on_world set_recovery_required gets
  recover_on_startup = do
    emit recovery_started
    report ← on_world (recover_destination sha chunk_bytes object_store_root)
    jobs ← gets (λ s. list_incomplete_jobs s.world.db)
    on_world (set_recovery_required jobs)
    emit (recovery_completed report)
    pure report
