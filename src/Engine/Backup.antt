-- ===== src/Engine/Backup.antt =====
-- Where a backup leaves the machine, and where `reset` takes it from there.
use pi_mobile_photobackup.Engine.Runs.{
  resettable, Interrupted, end_state, Ended, steps, says, scans, execute_lem,
}
use pi_mobile_photobackup.Prelude.{
  ◌≡◌, refl, subst, ◌≢◌, Text, Bool, true, false, not, ◌||◌, ◌&&◌, arith, ◌⊎◌, inl, inr, Option,
  none, some, List, [], ◌∷◌, ℕ,
}
use pi_mobile_photobackup.Identity.{Sha256}
use pi_mobile_photobackup.Effects.{
  Error, ok, raise, pure, throw, gets, require, ◌>>=◌, ◌>>◌, value_error, assertion_error,
}
use pi_mobile_photobackup.Machine.{
  BackupState, idle, source_detected, source_mounting, source_ready, preflight_scanning,
  preflight_hashing, preflight_comparing, preflight_capacity_check, preflight_ready,
  preflight_warning, preflight_blocked, backup_queued, backup_copying, backup_cancelling,
  backup_verifying, backup_completed, backup_completed_with_warnings, backup_cancelled,
  backup_failed, source_safe_to_remove, multiple_sources_detected, source_protection_failure,
  recovery_required, recovering, can_transition, state_in, allowed_targets, state_eq,
  BackupState-discrete,
}
use pi_mobile_photobackup.World.{Environment}
use pi_mobile_photobackup.Preflight.{
  PreflightOutcome, PreflightResult, Preflight, ready, warning, blocked, done, invalid,
  assertion_failed, key_error,
}
use pi_mobile_photobackup.Runner
use pi_mobile_photobackup.Runner.{JobOutcome, JobRunResult, run_job}
use pi_mobile_photobackup.Engine.{
  Engine, emit, transition, transitions, reset_route, reset, Config, Found, EngineResult,
  preflight_of, preflight_now, execute, is_blocked, ready_state, blocked_result, run_backup,
  preflight_completed, preflight_completed_blocked, session_root_of,
}
use pi_mobile_photobackup.Engine.Rules.{
  Claim, Ends, Goes, Stays, gets-Stays, pure-Stays, throw-Stays, bind-Stays, Goes-Stays, Goes-gets,
  Goes-if, Goes-bind, Goes-quiet,
}

-- Each of the states may follow the one before it.
is_route : BackupState → List BackupState → Bool
is_route b [] = true
is_route b (c ∷ cs) = can_transition b c && is_route c cs

last_of : BackupState → List BackupState → BackupState
last_of b [] = b
last_of b (c ∷ cs) = last_of c cs

along :
    {R : Claim} (b : BackupState) (cs : List BackupState)
    → is_route b cs ≡ true
    → Goes b (transitions cs) (λ _ k. k ≡ last_of b cs) R
unfolding transitions is_route last_of pure
along b [] h = record { at = λ s e. e }
along b (c ∷ cs) h = steps b c _ (ground (arith, h)) (along c cs (ground (arith, h)))

module _ (sha : Sha256) (env : Environment) (config : Config) (cancel_requested : ℕ → Bool)
    (source_root : Text) where
  preflight_of-Stays : (r : Preflight) → Stays (preflight_of r)
  unfolding preflight_of
  preflight_of-Stays (done p) = pure-Stays p
  preflight_of-Stays (invalid m) = throw-Stays value_error
  preflight_of-Stays assertion_failed = throw-Stays assertion_error
  preflight_of-Stays key_error = throw-Stays assertion_error

  pub preflight_now-Stays :
      (found : Found) (session_root : Text)
      → Stays (preflight_now sha env config cancel_requested found session_root)
  unfolding preflight_now
  preflight_now-Stays found session_root = bind-Stays _ _ (gets-Stays _) λ m. preflight_of-Stays _

  blocked_lem :
      (p : PreflightResult)
      → Goes preflight_blocked (blocked_result sha env config cancel_requested p) Ended Interrupted
  unfolding blocked_result
  blocked_lem p = Goes-gets _ (λ s e. (refl, e))

  ready_allowed :
      (o : PreflightOutcome)
      → (can_transition preflight_capacity_check (ready_state sha env config cancel_requested o)
          ≡ true)
        × (can_transition (ready_state sha env config cancel_requested o) backup_queued ≡ true)
  unfolding ready_state state_in state_eq BackupState-discrete can_transition allowed_targets
  ready_allowed ready = (refl, refl)
  ready_allowed warning = (refl, refl)
  ready_allowed blocked = (refl, refl)

  run_backup_lem :
      (found : Found) (name : Text)
      → Goes idle
          (run_backup sha env config cancel_requested found source_root name)
          Ended
          Interrupted
  unfolding run_backup is_route last_of state_in state_eq BackupState-discrete can_transition
      allowed_targets
  run_backup_lem found name =
      Goes-bind preflight_scanning _ _
        (along idle (source_detected ∷ source_mounting ∷ source_ready ∷ preflight_scanning ∷ [])
          refl)
        λ _. says _ _ (
          Goes-quiet _ _ (gets-Stays _) (λ s. (_, refl))
            λ job_id.
              Goes-bind preflight_capacity_check _ _
                (along preflight_scanning
                  (preflight_hashing ∷ preflight_comparing ∷ preflight_capacity_check ∷ []) refl)
                λ _.
                  Goes-bind preflight_capacity_check _ _
                    (Goes-Stays _ (preflight_now-Stays found _) refl)
                    λ p. scans _ _ _ (
                      Goes-if
                        (is_blocked sha env config cancel_requested p.outcome
                          || not found.clock_trusted)
                        (transition preflight_blocked
                          >> (emit preflight_completed_blocked
                              >> blocked_result sha env config cancel_requested p))
                        (transition (ready_state sha env config cancel_requested p.outcome)
                          >> (emit preflight_completed
                              >> execute sha env config cancel_requested source_root p job_id
                                  (session_root_of config.backup_root found.now job_id name)))
                        (λ _.
                          steps _ preflight_blocked _ refl
                            (says preflight_completed_blocked _ (blocked_lem p)))
                        (λ _. steps _ _ _ (ready_allowed p.outcome).0 (
                          says preflight_completed _ (
                            execute_lem sha env config cancel_requested source_root p job_id
                              (session_root_of config.backup_root found.now job_id name) _
                              (ready_allowed p.outcome).1)))))

  -- A backup that is started in IDLE and returns reports the machine's state, and this is
  -- PREFLIGHT_BLOCKED if there was no job, BACKUP_FAILED if the job failed, and
  -- SOURCE_SAFE_TO_REMOVE otherwise. If it raises, the machine is in PREFLIGHT_CAPACITY_CHECK,
  -- BACKUP_QUEUED, BACKUP_COPYING, BACKUP_COMPLETED, BACKUP_COMPLETED_WITH_WARNINGS or
  -- BACKUP_FAILED.
  pub run_backup-Ends :
      (found : Found) (name : Text) (s : Engine)
      → s.machine.state ≡ idle
      → Ends Ended Interrupted (run_backup sha env config cancel_requested found source_root name s)
  run_backup-Ends found name s h = (run_backup_lem found name).at s h

-- A route leads to IDLE along allowed transitions.
abbrev IsWayToIdle : BackupState → List BackupState → Type 0
IsWayToIdle b cs =
    (reset_route b ≡ some cs)
    × (is_route b cs ≡ true)
    × (last_of b cs ≡ idle)
    × (state_in b resettable ≡ true)

-- The routes, state by state.
reset_table :
    (b : BackupState)
    → ((reset_route b ≡ none) × (state_in b resettable ≡ false))
      ⊎ ((cs : List BackupState) × IsWayToIdle b cs)
unfolding reset_route is_route last_of state_in state_eq BackupState-discrete can_transition
    allowed_targets
reset_table idle = inr ([], (refl, refl, refl, refl))
reset_table source_detected = inl (refl, refl)
reset_table multiple_sources_detected = inl (refl, refl)
reset_table source_mounting = inl (refl, refl)
reset_table source_protection_failure = inl (refl, refl)
reset_table source_ready = inl (refl, refl)
reset_table preflight_scanning = inl (refl, refl)
reset_table preflight_hashing = inl (refl, refl)
reset_table preflight_comparing = inl (refl, refl)
reset_table preflight_capacity_check = inl (refl, refl)
reset_table preflight_ready = inl (refl, refl)
reset_table preflight_warning = inl (refl, refl)
reset_table preflight_blocked = inr (idle ∷ [], (refl, refl, refl, refl))
reset_table backup_queued = inl (refl, refl)
reset_table backup_copying = inl (refl, refl)
reset_table backup_cancelling = inl (refl, refl)
reset_table backup_verifying = inl (refl, refl)
reset_table backup_completed = inl (refl, refl)
reset_table backup_completed_with_warnings = inl (refl, refl)
reset_table backup_cancelled = inr (source_safe_to_remove ∷ idle ∷ [], (refl, refl, refl, refl))
reset_table backup_failed = inr (source_safe_to_remove ∷ idle ∷ [], (refl, refl, refl, refl))
reset_table source_safe_to_remove = inr (idle ∷ [], (refl, refl, refl, refl))
reset_table recovery_required = inl (refl, refl)
reset_table recovering = inl (refl, refl)

along_way :
    (s : Engine) (cs : List BackupState)
    → IsWayToIdle s.machine.state cs
    → Ends (λ _ k. k ≡ idle) (λ _. ⊥) (reset s)
unfolding reset gets require ◌>>=◌ pure
along_way s cs (route, allowed, ends, _) =
    rw route (rw (← ends) ((along {R = λ _. ⊥} s.machine.state cs allowed).at s refl))

stuck : (s : Engine) → reset_route s.machine.state ≡ none → reset s ≡ (raise value_error, s)
unfolding reset gets require ◌>>=◌ throw
stuck s h = rw h refl

-- From IDLE, SOURCE_SAFE_TO_REMOVE, PREFLIGHT_BLOCKED, BACKUP_FAILED and BACKUP_CANCELLED `reset`
-- returns and the machine is in IDLE. From every other state it raises a ValueError and changes
-- nothing.
pub reset_lem :
    (s : Engine)
    → (state_in s.machine.state resettable ≡ true → Ends (λ _ k. k ≡ idle) (λ _. ⊥) (reset s))
      × (state_in s.machine.state resettable ≡ false → reset s ≡ (raise value_error, s))
reset_lem s = elim (reset_table s.machine.state) [
  | inl (none_, no_) ↦ (λ e. absurd (cc (e, no_)), λ _. stuck s none_)
  | inr (cs, way) ↦
      (λ _. along_way s cs way, λ e. let (_, _, _, yes_) = way in absurd (cc (e, yes_)))
]

end_state-resettable : (job : Option JobRunResult) → state_in (end_state job) resettable ≡ true
unfolding state_in state_eq BackupState-discrete
end_state-resettable none = refl
end_state-resettable (some job) = by job.outcome refl
  where
    by : (o : JobOutcome) → job.outcome ≡ o → state_in (end_state (some job)) resettable ≡ true
    by Runner.completed e = rw e refl
    by Runner.completed_with_warnings e = rw e refl
    by Runner.cancelled e = rw e refl
    by Runner.failed e = rw e refl

-- Of the states in which an exception leaves the machine, `reset` knows a way from one.
interrupted_stuck :
    (b : BackupState) → Interrupted b → b ≢ backup_failed → state_in b resettable ≡ false
unfolding state_in state_eq BackupState-discrete
interrupted_stuck preflight_capacity_check i f = refl
interrupted_stuck backup_queued i f = refl
interrupted_stuck backup_copying i f = refl
interrupted_stuck backup_completed i f = refl
interrupted_stuck backup_completed_with_warnings i f = refl
interrupted_stuck backup_failed i f = absurd (f refl)
interrupted_stuck _ i f = absurd (cc i)

module _ (sha : Sha256) (env : Environment) (config : Config) (cancel_requested : ℕ → Bool)
    (source_root : Text) (found : Found) (name : Text) (s s' : Engine)
    (start : s.machine.state ≡ idle) where
  -- After a backup that was started in IDLE and returned, `reset` returns and brings the machine
  -- back to IDLE.
  pub reset-run_backup :
      (r : EngineResult)
      → run_backup sha env config cancel_requested found source_root name s ≡ (ok r, s')
      → Ends (λ _ k. k ≡ idle) (λ _. ⊥) (reset s')
  reset-run_backup r e =
      let ended : Ends Ended Interrupted (ok r, s') =
        subst (λ x. Ends Ended Interrupted x) e
          (run_backup-Ends sha env config cancel_requested source_root found name s start) in
      (reset_lem s').0 (rw ended.1 (end_state-resettable r.job))

  -- After a backup that was started in IDLE and raised, unless the machine is in BACKUP_FAILED,
  -- `reset` raises a ValueError and changes nothing.
  pub reset-run_backup-raise :
      (k : Error)
      → run_backup sha env config cancel_requested found source_root name s ≡ (raise k, s')
      → s'.machine.state ≢ backup_failed
      → reset s' ≡ (raise value_error, s')
  reset-run_backup-raise k e not_failed =
      let ended : Ends Ended Interrupted (raise k, s') =
        subst (λ x. Ends Ended Interrupted x) e
          (run_backup-Ends sha env config cancel_requested source_root found name s start) in
      (reset_lem s').1 (interrupted_stuck s'.machine.state ended not_failed)
