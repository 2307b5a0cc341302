-- ===== src/Led.antt =====
-- aethereal/led/patterns.py and aethereal/led/controller.py: what the status LED shows for a state,
-- its blink patterns, and their rendering. Durations are in milliseconds, where the source has
-- seconds; a percentage is a fraction of two natural numbers.
pub mod Shown
use pi_mobile_photobackup.Prelude.{
  ℕ, zero, suc, ◌*◌, Bool, true, false, Option, none, some, List, [], ◌∷◌, ◌++◌, leb, if◌then◌else◌,
}
use pi_mobile_photobackup.Machine.{
  BackupState, idle, source_detected, multiple_sources_detected, source_mounting, source_ready,
  source_protection_failure, preflight_scanning, preflight_hashing, preflight_comparing,
  preflight_capacity_check, preflight_ready, preflight_warning, preflight_blocked, backup_queued,
  backup_copying, backup_verifying, backup_cancelling, backup_completed,
  backup_completed_with_warnings, backup_cancelled, backup_failed, source_safe_to_remove,
  recovery_required, recovering,
}

pub data LedState : Type 0 where
  shows_off shows_booting shows_ready shows_source_detected shows_preflight shows_copying : LedState
  shows_verifying shows_safe_to_remove shows_backup_complete shows_warning shows_error
        shows_critical :
      LedState

pub record PatternStep : Type 0 where
  pub lit : Bool
  pub duration_ms : ℕ

pub record Pattern : Type 0 where
  pub steps : List PatternStep
  pub repeat : Bool

abbrev pub on_for : ℕ → PatternStep
on_for duration = record { lit = true; duration_ms = duration }

abbrev pub off_for : ℕ → PatternStep
off_for duration = record { lit = false; duration_ms = duration }

unfoldable pub blinks : ℕ → ℕ → ℕ → List PatternStep
blinks zero on_ms off_ms = []
blinks (suc count) on_ms off_ms = on_for on_ms ∷ off_for off_ms ∷ blinks count on_ms off_ms

abbrev short_blinks : ℕ → List PatternStep
short_blinks count = blinks count 100 100

-- `PATTERNS`
unfoldable pub pattern_for : LedState → Pattern
unfolding blinks
pattern_for shows_off = record { steps = off_for 1000 ∷ []; repeat = true }
pattern_for shows_booting = record { steps = short_blinks 2 ++ off_for 500 ∷ []; repeat = true }
pattern_for shows_ready = record { steps = on_for 100 ∷ off_for 2900 ∷ []; repeat = true }
pattern_for shows_source_detected = record {
  steps = short_blinks 3 ++ off_for 500 ∷ [];
  repeat = false;
}
pattern_for shows_preflight = record { steps = short_blinks 2 ++ off_for 600 ∷ []; repeat = true }
pattern_for shows_copying = record { steps = on_for 1000 ∷ off_for 1000 ∷ []; repeat = true }
pattern_for shows_verifying = record {
  steps = on_for 600 ∷ off_for 200 ∷ on_for 150 ∷ off_for 600 ∷ [];
  repeat = true;
}
pattern_for shows_safe_to_remove = record {
  steps = on_for 1000 ∷ off_for 300 ∷ short_blinks 4;
  repeat = true;
}
pattern_for shows_backup_complete = record {
  steps = on_for 5000 ∷ off_for 300 ∷ on_for 1000 ∷ off_for 300 ∷ short_blinks 4;
  repeat = false;
}
pattern_for shows_warning = record { steps = short_blinks 3 ++ off_for 5000 ∷ []; repeat = true }
pattern_for shows_error = record { steps = short_blinks 5 ++ off_for 500 ∷ []; repeat = true }
pattern_for shows_critical = record {
  steps = blinks 3 150 150 ++ blinks 3 400 150 ++ blinks 3 150 150 ++ off_for 1000 ∷ [];
  repeat = true;
}

-- `percent` is `done / total`; it is at least `n` when `n * total` is at most `done`.
unfoldable pub progress_bucket : ℕ → ℕ → ℕ
progress_bucket done total =
    if leb (100 * total) done
    then 4
    else if leb (75 * total) done
    then 3
    else if leb (50 * total) done
    then 2
    else if leb (25 * total) done
    then 1
    else 0

-- `none` is the `ValueError`.
unfoldable pub progress_overlay : ℕ → Option Pattern
unfolding blinks
progress_overlay bucket =
    if leb bucket 4
    then some (record {
      steps = on_for 800 ∷ off_for 400 ∷ blinks bucket 150 200 ++ off_for 800 ∷ [];
      repeat = false;
    })
    else none

-- `_STATE_MAP`, which has every state.
unfoldable pub led_state_for : BackupState → LedState
led_state_for idle = shows_ready
led_state_for source_detected = shows_source_detected
led_state_for multiple_sources_detected = shows_source_detected
led_state_for source_mounting = shows_source_detected
led_state_for source_ready = shows_source_detected
led_state_for source_protection_failure = shows_error
led_state_for preflight_scanning = shows_preflight
led_state_for preflight_hashing = shows_preflight
led_state_for preflight_comparing = shows_preflight
led_state_for preflight_capacity_check = shows_preflight
led_state_for preflight_ready = shows_preflight
led_state_for preflight_warning = shows_warning
led_state_for preflight_blocked = shows_error
led_state_for backup_queued = shows_preflight
led_state_for backup_copying = shows_copying
led_state_for backup_verifying = shows_verifying
led_state_for backup_cancelling = shows_warning
led_state_for backup_completed = shows_backup_complete
led_state_for backup_completed_with_warnings = shows_backup_complete
led_state_for backup_cancelled = shows_warning
led_state_for backup_failed = shows_error
led_state_for source_safe_to_remove = shows_safe_to_remove
led_state_for recovery_required = shows_warning
led_state_for recovering = shows_preflight

-- The LED and the clock: what was written to the LED, and for how long it was waited, in order.
pub record LedOutput : Type 0 where
  pub writes : List Bool
  pub slept : List ℕ

unfoldable pub set_led : Bool → LedOutput → LedOutput
set_led lit output = record output { writes = output.writes ++ lit ∷ [] }

unfoldable pub sleep : ℕ → LedOutput → LedOutput
sleep duration output = record output { slept = output.slept ++ duration ∷ [] }

unfoldable pub render_steps : List PatternStep → LedOutput → LedOutput
unfolding set_led sleep
render_steps [] output = output
render_steps (s ∷ rest) output = render_steps rest (sleep s.duration_ms (set_led s.lit output))

unfoldable pub render_pattern : Pattern → LedOutput → LedOutput
unfolding render_steps set_led
render_pattern pattern output = set_led false (render_steps pattern.steps output)
