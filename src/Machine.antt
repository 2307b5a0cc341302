-- ===== src/Machine.antt =====
-- aethereal/backup/state_machine.py: the states of a backup job, the transition map and the
-- machine that guards it. The proofs about the map are in Machine/Graph.antt, those about the
-- machine in Machine/Guard.antt.
pub mod Graph
pub mod Guard
use pi_mobile_photobackup.Prelude.{
  Text, codes, Bool, true, false, ◌||◌, List, [], ◌∷◌, ◌++◌, if◌then◌else◌,
}

pub data BackupState : Type 0 where
  idle : BackupState
  source_detected multiple_sources_detected source_mounting : BackupState
  source_protection_failure source_ready : BackupState
  preflight_scanning preflight_hashing preflight_comparing : BackupState
  preflight_capacity_check preflight_ready preflight_warning preflight_blocked : BackupState
  backup_queued backup_copying backup_cancelling backup_verifying : BackupState
  backup_completed backup_completed_with_warnings backup_cancelled backup_failed : BackupState
  source_safe_to_remove recovery_required recovering : BackupState

unfoldable pub BackupState-discrete : Discrete BackupState
BackupState-discrete = hlevel

-- The string that is persisted.
unfoldable pub state_value : BackupState → Text
state_value idle = codes "IDLE"
state_value source_detected = codes "SOURCE_DETECTED"
state_value multiple_sources_detected = codes "MULTIPLE_SOURCES_DETECTED"
state_value source_mounting = codes "SOURCE_MOUNTING"
state_value source_protection_failure = codes "SOURCE_PROTECTION_FAILURE"
state_value source_ready = codes "SOURCE_READY"
state_value preflight_scanning = codes "PREFLIGHT_SCANNING"
state_value preflight_hashing = codes "PREFLIGHT_HASHING"
state_value preflight_comparing = codes "PREFLIGHT_COMPARING"
state_value preflight_capacity_check = codes "PREFLIGHT_CAPACITY_CHECK"
state_value preflight_ready = codes "PREFLIGHT_READY"
state_value preflight_warning = codes "PREFLIGHT_WARNING"
state_value preflight_blocked = codes "PREFLIGHT_BLOCKED"
state_value backup_queued = codes "BACKUP_QUEUED"
state_value backup_copying = codes "BACKUP_COPYING"
state_value backup_cancelling = codes "BACKUP_CANCELLING"
state_value backup_verifying = codes "BACKUP_VERIFYING"
state_value backup_completed = codes "BACKUP_COMPLETED"
state_value backup_completed_with_warnings = codes "BACKUP_COMPLETED_WITH_WARNINGS"
state_value backup_cancelled = codes "BACKUP_CANCELLED"
state_value backup_failed = codes "BACKUP_FAILED"
state_value source_safe_to_remove = codes "SOURCE_SAFE_TO_REMOVE"
state_value recovery_required = codes "RECOVERY_REQUIRED"
state_value recovering = codes "RECOVERING"

-- `_ALLOWED`, by its keys; `allowed_targets` reads it.
unfoldable pub allowed_targets : BackupState → List BackupState
allowed_targets idle = source_detected ∷ multiple_sources_detected ∷ []
allowed_targets source_detected = source_mounting ∷ source_protection_failure ∷ backup_failed ∷ []
allowed_targets multiple_sources_detected = source_detected ∷ idle ∷ []
allowed_targets source_mounting = source_ready ∷ source_protection_failure ∷ backup_failed ∷ []
allowed_targets source_protection_failure = source_detected ∷ idle ∷ []
allowed_targets source_ready = preflight_scanning ∷ []
allowed_targets preflight_scanning = preflight_hashing ∷ preflight_blocked ∷ backup_failed ∷ []
allowed_targets preflight_hashing = preflight_comparing ∷ preflight_blocked ∷ backup_failed ∷ []
allowed_targets preflight_comparing = preflight_capacity_check ∷ []
allowed_targets preflight_capacity_check =
    preflight_ready ∷ preflight_warning ∷ preflight_blocked ∷ []
allowed_targets preflight_ready = backup_queued ∷ []
allowed_targets preflight_warning = backup_queued ∷ preflight_blocked ∷ []
allowed_targets preflight_blocked = preflight_scanning ∷ idle ∷ []
allowed_targets backup_queued = backup_copying ∷ backup_cancelled ∷ []
allowed_targets backup_copying =
    backup_verifying ∷ backup_cancelling ∷ recovery_required ∷ backup_failed ∷ []
allowed_targets backup_verifying =
    backup_copying ∷ backup_completed ∷ backup_completed_with_warnings ∷ backup_cancelling
    ∷ recovery_required ∷ backup_failed ∷ []
allowed_targets backup_cancelling = backup_cancelled ∷ recovery_required ∷ []
allowed_targets backup_completed = source_safe_to_remove ∷ []
allowed_targets backup_completed_with_warnings = source_safe_to_remove ∷ []
allowed_targets backup_cancelled = source_safe_to_remove ∷ preflight_scanning ∷ []
allowed_targets recovery_required = recovering ∷ []
allowed_targets recovering =
    preflight_scanning ∷ backup_copying ∷ backup_verifying ∷ backup_completed ∷ backup_failed ∷ []
allowed_targets source_safe_to_remove = idle ∷ []
allowed_targets backup_failed = preflight_scanning ∷ recovery_required ∷ source_safe_to_remove ∷ []

unfoldable pub state_eq : BackupState → BackupState → Bool
unfolding BackupState-discrete
state_eq s t = elim (BackupState-discrete s t) [ yes _ ↦ true | no _ ↦ false ]

-- `target in targets`
unfoldable pub state_in : BackupState → List BackupState → Bool
unfolding state_eq
state_in t [] = false
state_in t (s ∷ ss) = state_eq t s || state_in t ss

unfoldable pub can_transition : BackupState → BackupState → Bool
unfolding state_in allowed_targets
can_transition source target = state_in target (allowed_targets source)

-- The machine, with the calls of `on_transition` that were made, oldest first.
pub record JobStateMachine : Type 0 where
  pub state : BackupState
  pub calls : List (BackupState × BackupState)

abbrev pub new_machine : JobStateMachine
new_machine = record { state = idle; calls = [] }

-- What `transition` does: it returns the target, or raises `InvalidTransition(source, target)`.
pub data Moved : Type 0 where
  moved : BackupState → Moved
  invalid_transition : BackupState → BackupState → Moved

unfoldable pub transition : BackupState → JobStateMachine → Moved × JobStateMachine
transition target m =
    if can_transition m.state target
    then (moved target, record { state = target; calls = m.calls ++ (m.state, target) ∷ [] })
    else (invalid_transition m.state target, m)
