-- ===== src/Machine/Graph.antt =====
-- The transition map of state_machine.py as a graph: where every run can end, and what a run has
-- to pass on its way to a copy or to a completed backup.
use pi_mobile_photobackup.Prelude.{◌≡◌, refl, Bool, true, false, not, ◌&&◌, arith, if◌then◌else◌}
use pi_mobile_photobackup.Machine.{
  BackupState, idle, source_detected, multiple_sources_detected, source_mounting, source_ready,
  source_protection_failure, preflight_scanning, preflight_hashing, preflight_comparing,
  preflight_capacity_check, preflight_ready, preflight_warning, preflight_blocked, backup_queued,
  backup_copying, backup_cancelling, backup_verifying, backup_completed, backup_cancelled,
  backup_completed_with_warnings, backup_failed, source_safe_to_remove, recovery_required,
  recovering, can_transition, state_eq,
}

infix 40 ◌⟶◌ ◌⟶*◌
abbrev pub ◌⟶◌ : BackupState → BackupState → Type 0
s ⟶ t = can_transition s t ≡ true

pub data ◌⟶*◌ : BackupState → BackupState → Type 0 where
  here : {s : BackupState} → s ⟶* s
  next : {s t u : BackupState} → s ⟶ t → t ⟶* u → s ⟶* u

-- A test holds of every state.
for_all_states : (BackupState → Bool) → Bool
for_all_states p =
    (p idle
      && p source_detected
      && p multiple_sources_detected
      && p source_mounting
      && p source_protection_failure
      && p source_ready)
    && (p preflight_scanning
        && p preflight_hashing
        && p preflight_comparing
        && p preflight_capacity_check
        && p preflight_ready
        && p preflight_warning)
    && (p preflight_blocked
        && p backup_queued
        && p backup_copying
        && p backup_cancelling
        && p backup_verifying
        && p backup_completed)
    && (p backup_completed_with_warnings
        && p backup_cancelled
        && p backup_failed
        && p source_safe_to_remove
        && p recovery_required
        && p recovering)

for_all_states_sound :
    (p : BackupState → Bool) (s : BackupState) → for_all_states p ≡ true → p s ≡ true
unfolding for_all_states
for_all_states_sound p idle h = ground arith
for_all_states_sound p _ h = ground arith

implies : Bool → Bool → Bool
implies a b = if a then b else true

-- A test that every edge between states inside `within` carries along.
edges_keep : (within keep : BackupState → Bool) → Bool
unfolding for_all_states implies
edges_keep within keep =
    for_all_states
      λ s. for_all_states λ t. implies (keep s && can_transition s t && within t) (keep t)

-- A run all of whose states after the first lie inside `within`.
pub data Run (within : BackupState → Bool) : BackupState → BackupState → Type 0 where
  start : {s : BackupState} → Run within s s
  step : {s t u : BackupState} → Run within s t → t ⟶ u → within u ≡ true → Run within s u

edges_keep_sound :
    (within keep : BackupState → Bool) (s t : BackupState)
    → edges_keep within keep ≡ true
    → keep s ≡ true
    → s ⟶ t
    → within t ≡ true
    → keep t ≡ true
unfolding edges_keep implies
edges_keep_sound within keep s t h k e w = ground (
  arith,
  for_all_states_sound
      (λ s. for_all_states λ t. implies (keep s && can_transition s t && within t) (keep t)) s h,
  for_all_states_sound (λ t. implies (keep s && can_transition s t && within t) (keep t)) t,
)

Run-keep :
    (within keep : BackupState → Bool) {s t : BackupState}
    → edges_keep within keep ≡ true
    → keep s ≡ true
    → Run within s t
    → keep t ≡ true
Run-keep within keep h k start = k
Run-keep within keep h k (step {t = t} {u = u} r e w) =
    edges_keep_sound within keep t u h (Run-keep within keep h k r) e w

-- A backup that is queued, under way or done.
abbrev pub is_backing_up : BackupState → Bool
is_backing_up backup_queued = true
is_backing_up backup_copying = true
is_backing_up backup_verifying = true
is_backing_up backup_cancelling = true
is_backing_up backup_completed = true
is_backing_up backup_completed_with_warnings = true
is_backing_up _ = false

abbrev pub is_completed : BackupState → Bool
is_completed backup_completed = true
is_completed backup_completed_with_warnings = true
is_completed _ = false

-- The states other than the two given.
abbrev pub avoids : BackupState → BackupState → BackupState → Bool
avoids a b s = not (state_eq s a) && not (state_eq s b)

-- No capacity check has passed, and no recovery has begun.
abbrev not_yet_checked : BackupState → Bool
not_yet_checked preflight_capacity_check = false
not_yet_checked preflight_ready = false
not_yet_checked preflight_warning = false
not_yet_checked backup_cancelled = false
not_yet_checked recovery_required = false
not_yet_checked recovering = false
not_yet_checked s = not (is_backing_up s)

checked_edges :
    edges_keep (avoids preflight_capacity_check recovery_required) not_yet_checked ≡ true
unfolding edges_keep can_transition
checked_edges = refl

not_yet_checked-not_backing_up :
    (s : BackupState) → not_yet_checked s ≡ true → is_backing_up s ≡ false
not_yet_checked-not_backing_up idle h = refl
not_yet_checked-not_backing_up _ h = ground arith

-- Whatever transitions a run takes from IDLE, as long as it visits neither
-- PREFLIGHT_CAPACITY_CHECK nor RECOVERY_REQUIRED it never gets to a queued, running, cancelling or
-- completed backup.
pub no_backup_before_capacity_check :
    {t : BackupState}
    → Run (avoids preflight_capacity_check recovery_required) idle t
    → is_backing_up t ≡ false
no_backup_before_capacity_check {t} r =
    not_yet_checked-not_backing_up t (Run-keep _ not_yet_checked checked_edges refl r)

completed_edges :
    edges_keep (avoids backup_verifying recovery_required) (λ s.
      not (is_completed s)
      && avoids backup_verifying recovery_required s
      && not (state_eq s recovering))
    ≡ true
unfolding edges_keep can_transition
completed_edges = refl

-- A run from IDLE that visits neither BACKUP_VERIFYING nor RECOVERY_REQUIRED never completes.
pub no_completion_before_verifying :
    {t : BackupState}
    → Run (avoids backup_verifying recovery_required) idle t
    → is_completed t ≡ false
unfolding state_eq
no_completion_before_verifying {t} r = ground (
  arith,
  Run-keep _
      (λ s.
        not (is_completed s)
        && avoids backup_verifying recovery_required s
        && not (state_eq s recovering))
      completed_edges refl r,
)

safe_to_remove-⟶*-idle : source_safe_to_remove ⟶* idle
unfolding can_transition
safe_to_remove-⟶*-idle = next refl here

failed-⟶*-idle : backup_failed ⟶* idle
unfolding can_transition
failed-⟶*-idle = next refl safe_to_remove-⟶*-idle

blocked-⟶*-idle : preflight_blocked ⟶* idle
unfolding can_transition
blocked-⟶*-idle = next refl here

copying-⟶*-idle : backup_copying ⟶* idle
unfolding can_transition
copying-⟶*-idle = next {t = backup_failed} refl failed-⟶*-idle

-- No state is a dead end: the map has a way back to IDLE from every state.
pub ⟶*-idle : (s : BackupState) → s ⟶* idle
unfolding can_transition
⟶*-idle idle = here
⟶*-idle source_detected = next refl failed-⟶*-idle
⟶*-idle multiple_sources_detected = next refl here
⟶*-idle source_mounting = next refl failed-⟶*-idle
⟶*-idle source_protection_failure = next refl here
⟶*-idle source_ready = next {t = preflight_scanning} refl (next refl blocked-⟶*-idle)
⟶*-idle preflight_scanning = next refl blocked-⟶*-idle
⟶*-idle preflight_hashing = next refl blocked-⟶*-idle
⟶*-idle preflight_comparing = next {t = preflight_capacity_check} refl (next refl blocked-⟶*-idle)
⟶*-idle preflight_capacity_check = next refl blocked-⟶*-idle
⟶*-idle preflight_ready = next {t = backup_queued} refl (next refl copying-⟶*-idle)
⟶*-idle preflight_warning = next refl blocked-⟶*-idle
⟶*-idle preflight_blocked = blocked-⟶*-idle
⟶*-idle backup_queued = next refl copying-⟶*-idle
⟶*-idle backup_copying = copying-⟶*-idle
⟶*-idle backup_cancelling = next {t = backup_cancelled} refl (next refl safe_to_remove-⟶*-idle)
⟶*-idle backup_verifying = next refl failed-⟶*-idle
⟶*-idle backup_completed = next refl safe_to_remove-⟶*-idle
⟶*-idle backup_completed_with_warnings = next refl safe_to_remove-⟶*-idle
⟶*-idle backup_cancelled = next refl safe_to_remove-⟶*-idle
⟶*-idle backup_failed = failed-⟶*-idle
⟶*-idle source_safe_to_remove = safe_to_remove-⟶*-idle
⟶*-idle recovery_required = next {t = recovering} refl (next refl failed-⟶*-idle)
⟶*-idle recovering = next refl failed-⟶*-idle
