-- ===== src/Tests/Engines.antt =====
-- Examples for the engine.
use pi_mobile_photobackup.Effects
use pi_mobile_photobackup.Files
use pi_mobile_photobackup.Identity
use pi_mobile_photobackup.ObjectStore
use pi_mobile_photobackup.Manifest
use pi_mobile_photobackup.World
use pi_mobile_photobackup.Journal
use pi_mobile_photobackup.Copier
use pi_mobile_photobackup.Runner
use pi_mobile_photobackup.Classification
use pi_mobile_photobackup.Planner
use pi_mobile_photobackup.Capacity
use pi_mobile_photobackup.Preflight
use pi_mobile_photobackup.Machine
use pi_mobile_photobackup.Engine
use pi_mobile_photobackup.Prelude.{
  ℕ, ◌≡◌, refl, ◌≢◌, codes, text_eq, text_le, true, false, none, [],
}
use pi_mobile_photobackup.Prelude.Int
use pi_mobile_photobackup.Effects.{Error, Result, power_loss, value_error}
use pi_mobile_photobackup.World.{World}
use pi_mobile_photobackup.Machine.{
  idle, new_machine, backup_failed, preflight_capacity_check, state_in,
}
use pi_mobile_photobackup.Engine.{Engine, Now, Config, Found, EngineResult, run_backup, reset}
use pi_mobile_photobackup.Engine.Rules.{Ends}
use pi_mobile_photobackup.Engine.Runs.{resettable, Ended, Interrupted}
use pi_mobile_photobackup.Engine.Backup.{
  run_backup-Ends, reset_lem, reset-run_backup, reset-run_backup-raise,
}
use pi_mobile_photobackup.Tests.{toy_sha, card, world}
use pi_mobile_photobackup.Tests.Planning.{preflight, usage, margins, inputs}

abbrev pub now : Now
now = record { compact = codes "20260102"; year = codes "2026"; day = codes "2026-01-02" }

abbrev pub config : Config
config = record {
  backup_root = codes "/b";
  object_store_root = codes "/o";
  margins = margins;
  retries = 1;
  chunk_bytes = 2;
}

abbrev pub found : Found
found = record { now = now; clock_trusted = true; inputs = inputs; usage = usage }

abbrev pub fresh : ℕ → Engine
fresh power = record {
  world = record world { power = power };
  machine = new_machine;
  events = [];
  has_cancel_token = false;
  last_scan = none;
}

abbrev run : ℕ → Result EngineResult × Engine
run power =
    run_backup toy_sha card config (λ _. false) found (codes "/s") (codes "CARD") (fresh power)

-- Without a trusted clock the run is blocked.
abbrev pub untrusted : Found
untrusted = record { now = now; clock_trusted = false; inputs = []; usage = usage }

abbrev pub blocked_run : Result EngineResult × Engine
blocked_run =
    run_backup toy_sha card config (λ _. false) untrusted (codes "/s") (codes "CARD") (fresh 100)

abbrev pub result_or : EngineResult → Result EngineResult → EngineResult
result_or other (Effects.ok r) = r
result_or other _ = other

abbrev pub result : EngineResult
result =
    result_or
      (record {
        state = idle;
        preflight_outcome = preflight.outcome;
        preflight = preflight;
        job = none;
        job_id = none;
      })
      blocked_run.0

pub blocked_ok : blocked_run ≡ (Effects.ok result, blocked_run.1)
unfolding Effects.pure Effects.throw Effects.gets Effects.require Effects.◌>>=◌ Files.find_name
    Files.drop_name Files.find_blob Files.exists Files.unlink Files.create Files.write Files.link
    Files.replace Identity.identity_eq Identity.identity_in Identity.hash_loop Identity.hash_stream
    Identity.content_identity_of_bytes ObjectStore.object_relative_path ObjectStore.object_path
    ObjectStore.partial_path Manifest.next_id Manifest.find_identity Manifest.content_identity_id
    Manifest.upsert_content_identity Manifest.names_identity Manifest.any_verified
    Manifest.has_verified_object Manifest.find_object Manifest.update_object
    Manifest.upsert_content_object_pending Manifest.mark_content_object_verified Manifest.has_job
    Manifest.has_object Manifest.create_backup_job Manifest.starts_with Manifest.count_jobs_for_date
    Manifest.update_job Manifest.set_backup_job_state Manifest.finish_backup_job
    Manifest.list_incomplete_jobs Manifest.insert_session_entry Manifest.find_entry
    Manifest.update_entry Manifest.finalize_session_entry Manifest.pending_rows
    Manifest.pending_objects Manifest.list_pending_finalize Manifest.pending_session_entries
    Manifest.finalize_session_entry_by_id Manifest.delete_pending_entries Manifest.delete_object
    Manifest.verified_sizes World.on_files World.on_db World.try_db World.open_source
    Journal.record_pending_finalize Journal.mark_verified Copier.failed_outcome Copier.copy_loop
    Copier.digest_of Copier.create_exclusive Copier.link_into_session Copier.link_result
    Copier.link_verified_object Copier.write_partial Copier.verify_landed Copier.copy_delivered
    Copier.copy_and_verify_once Copier.rename Copier.finalize Copier.copy_rounds
    Copier.copy_verify_finalize Runner.count_failure Runner.report Runner.count_copy
    Runner.count_link Runner.try_except Runner.copy_file Runner.link_file Runner.run_action
    Runner.run_file Runner.run_files Runner.job_outcome Runner.result_of Runner.run_job
    Classification.occupied_by_other Classification.classify Planner.rstrip_slash
    Planner.session_path_of Planner.insert_file Planner.sort_files Planner.append_planned
    Planner.plan_new Planner.plan_by Planner.plan_file Planner.plan_files Planner.plan_of
    Planner.build_plan Capacity.safety_margin_bytes Capacity.operational_reserve_bytes
    Capacity.assessment_of Capacity.assess_capacity Preflight.classification_of Preflight.look_up
    Preflight.to_classified Preflight.capacity_input Preflight.outcome_of Preflight.preflight_result
    Preflight.assessed Preflight.planned Preflight.run_preflight Machine.BackupState-discrete
    Machine.state_value Machine.allowed_targets Machine.state_eq Machine.state_in
    Machine.can_transition Machine.transition Engine.on_world Engine.emit Engine.stepped
    Engine.transition Engine.transitions Engine.reset_route Engine.reset Engine.digits Engine.pad3
    Engine.generate_job_id Engine.sanitize Engine.session_root_of Engine.last_source_scan
    Engine.final_state_of Engine.counts_of Engine.set_last_scan Engine.with_token
    Engine.preflight_of Engine.emit_all Engine.created Engine.preflight_now Engine.dry_run
    Engine.finish_row Engine.result_now Engine.after_cancel Engine.announce Engine.after_run
    Engine.conclude Engine.execute Engine.is_blocked Engine.ready_state Engine.blocked_result
    Engine.run_backup Engine.set_recovery_required Engine.recover_on_startup Int.◌+ℤ◌ Int.◌-ℤ◌
    Int.◌*ℤ◌ Int.◌//ℤ◌ Int.max_ℤ text_eq text_le
blocked_ok = refl

-- The power fails while the job is copied.
run_cut : run 5 ≡ (Effects.raise power_loss, (run 5).1)
unfolding Effects.pure Effects.throw Effects.gets Effects.require Effects.◌>>=◌ Files.find_name
    Files.drop_name Files.find_blob Files.exists Files.unlink Files.create Files.write Files.link
    Files.replace Identity.identity_eq Identity.identity_in Identity.hash_loop Identity.hash_stream
    Identity.content_identity_of_bytes ObjectStore.object_relative_path ObjectStore.object_path
    ObjectStore.partial_path Manifest.next_id Manifest.find_identity Manifest.content_identity_id
    Manifest.upsert_content_identity Manifest.names_identity Manifest.any_verified
    Manifest.has_verified_object Manifest.find_object Manifest.update_object
    Manifest.upsert_content_object_pending Manifest.mark_content_object_verified Manifest.has_job
    Manifest.has_object Manifest.create_backup_job Manifest.starts_with Manifest.count_jobs_for_date
    Manifest.update_job Manifest.set_backup_job_state Manifest.finish_backup_job
    Manifest.list_incomplete_jobs Manifest.insert_session_entry Manifest.find_entry
    Manifest.update_entry Manifest.finalize_session_entry Manifest.pending_rows
    Manifest.pending_objects Manifest.list_pending_finalize Manifest.pending_session_entries
    Manifest.finalize_session_entry_by_id Manifest.delete_pending_entries Manifest.delete_object
    Manifest.verified_sizes World.on_files World.on_db World.try_db World.open_source
    Journal.record_pending_finalize Journal.mark_verified Copier.failed_outcome Copier.copy_loop
    Copier.digest_of Copier.create_exclusive Copier.link_into_session Copier.link_result
    Copier.link_verified_object Copier.write_partial Copier.verify_landed Copier.copy_delivered
    Copier.copy_and_verify_once Copier.rename Copier.finalize Copier.copy_rounds
    Copier.copy_verify_finalize Runner.count_failure Runner.report Runner.count_copy
    Runner.count_link Runner.try_except Runner.copy_file Runner.link_file Runner.run_action
    Runner.run_file Runner.run_files Runner.job_outcome Runner.result_of Runner.run_job
    Classification.occupied_by_other Classification.classify Planner.rstrip_slash
    Planner.session_path_of Planner.insert_file Planner.sort_files Planner.append_planned
    Planner.plan_new Planner.plan_by Planner.plan_file Planner.plan_files Planner.plan_of
    Planner.build_plan Capacity.safety_margin_bytes Capacity.operational_reserve_bytes
    Capacity.assessment_of Capacity.assess_capacity Preflight.classification_of Preflight.look_up
    Preflight.to_classified Preflight.capacity_input Preflight.outcome_of Preflight.preflight_result
    Preflight.assessed Preflight.planned Preflight.run_preflight Machine.BackupState-discrete
    Machine.state_value Machine.allowed_targets Machine.state_eq Machine.state_in
    Machine.can_transition Machine.transition Engine.on_world Engine.emit Engine.stepped
    Engine.transition Engine.transitions Engine.reset_route Engine.reset Engine.digits Engine.pad3
    Engine.generate_job_id Engine.sanitize Engine.session_root_of Engine.last_source_scan
    Engine.final_state_of Engine.counts_of Engine.set_last_scan Engine.with_token
    Engine.preflight_of Engine.emit_all Engine.created Engine.preflight_now Engine.dry_run
    Engine.finish_row Engine.result_now Engine.after_cancel Engine.announce Engine.after_run
    Engine.conclude Engine.execute Engine.is_blocked Engine.ready_state Engine.blocked_result
    Engine.run_backup Engine.set_recovery_required Engine.recover_on_startup Int.◌+ℤ◌ Int.◌-ℤ◌
    Int.◌*ℤ◌ Int.◌//ℤ◌ Int.max_ℤ text_eq text_le
run_cut = refl

cut_state : (run 5).1.machine.state ≢ backup_failed
unfolding Effects.pure Effects.throw Effects.gets Effects.require Effects.◌>>=◌ Files.find_name
    Files.drop_name Files.find_blob Files.exists Files.unlink Files.create Files.write Files.link
    Files.replace Identity.identity_eq Identity.identity_in Identity.hash_loop Identity.hash_stream
    Identity.content_identity_of_bytes ObjectStore.object_relative_path ObjectStore.object_path
    ObjectStore.partial_path Manifest.next_id Manifest.find_identity Manifest.content_identity_id
    Manifest.upsert_content_identity Manifest.names_identity Manifest.any_verified
    Manifest.has_verified_object Manifest.find_object Manifest.update_object
    Manifest.upsert_content_object_pending Manifest.mark_content_object_verified Manifest.has_job
    Manifest.has_object Manifest.create_backup_job Manifest.starts_with Manifest.count_jobs_for_date
    Manifest.update_job Manifest.set_backup_job_state Manifest.finish_backup_job
    Manifest.list_incomplete_jobs Manifest.insert_session_entry Manifest.find_entry
    Manifest.update_entry Manifest.finalize_session_entry Manifest.pending_rows
    Manifest.pending_objects Manifest.list_pending_finalize Manifest.pending_session_entries
    Manifest.finalize_session_entry_by_id Manifest.delete_pending_entries Manifest.delete_object
    Manifest.verified_sizes World.on_files World.on_db World.try_db World.open_source
    Journal.record_pending_finalize Journal.mark_verified Copier.failed_outcome Copier.copy_loop
    Copier.digest_of Copier.create_exclusive Copier.link_into_session Copier.link_result
    Copier.link_verified_object Copier.write_partial Copier.verify_landed Copier.copy_delivered
    Copier.copy_and_verify_once Copier.rename Copier.finalize Copier.copy_rounds
    Copier.copy_verify_finalize Runner.count_failure Runner.report Runner.count_copy
    Runner.count_link Runner.try_except Runner.copy_file Runner.link_file Runner.run_action
    Runner.run_file Runner.run_files Runner.job_outcome Runner.result_of Runner.run_job
    Classification.occupied_by_other Classification.classify Planner.rstrip_slash
    Planner.session_path_of Planner.insert_file Planner.sort_files Planner.append_planned
    Planner.plan_new Planner.plan_by Planner.plan_file Planner.plan_files Planner.plan_of
    Planner.build_plan Capacity.safety_margin_bytes Capacity.operational_reserve_bytes
    Capacity.assessment_of Capacity.assess_capacity Preflight.classification_of Preflight.look_up
    Preflight.to_classified Preflight.capacity_input Preflight.outcome_of Preflight.preflight_result
    Preflight.assessed Preflight.planned Preflight.run_preflight Machine.BackupState-discrete
    Machine.state_value Machine.allowed_targets Machine.state_eq Machine.state_in
    Machine.can_transition Machine.transition Engine.on_world Engine.emit Engine.stepped
    Engine.transition Engine.transitions Engine.reset_route Engine.reset Engine.digits Engine.pad3
    Engine.generate_job_id Engine.sanitize Engine.session_root_of Engine.last_source_scan
    Engine.final_state_of Engine.counts_of Engine.set_last_scan Engine.with_token
    Engine.preflight_of Engine.emit_all Engine.created Engine.preflight_now Engine.dry_run
    Engine.finish_row Engine.result_now Engine.after_cancel Engine.announce Engine.after_run
    Engine.conclude Engine.execute Engine.is_blocked Engine.ready_state Engine.blocked_result
    Engine.run_backup Engine.set_recovery_required Engine.recover_on_startup Int.◌+ℤ◌ Int.◌-ℤ◌
    Int.◌*ℤ◌ Int.◌//ℤ◌ Int.max_ℤ text_eq text_le
cut_state e = cc e

run_backup-Ends_example : Ends Ended Interrupted (run 100)
run_backup-Ends_example =
    run_backup-Ends toy_sha card config (λ _. false) (codes "/s") found (codes "CARD") (fresh 100)
      refl

reset-run_backup_example : Ends (λ _ k. k ≡ idle) (λ _. ⊥) (reset blocked_run.1)
reset-run_backup_example =
    reset-run_backup toy_sha card config (λ _. false) (codes "/s") untrusted (codes "CARD")
      (fresh 100) blocked_run.1 refl result blocked_ok

reset-run_backup-raise_example : reset (run 5).1 ≡ (Effects.raise value_error, (run 5).1)
reset-run_backup-raise_example =
    reset-run_backup-raise toy_sha card config (λ _. false) (codes "/s") found (codes "CARD")
      (fresh 5) (run 5).1 refl power_loss run_cut cut_state

reset_lem_example :
    (state_in backup_failed resettable ≡ true
      → Ends
          (λ _ k. k ≡ idle)
          (λ _. ⊥)
          (reset (record (fresh 1) { machine = record { state = backup_failed; calls = [] } })))
    × (state_in backup_failed resettable ≡ false
        → reset (record (fresh 1) { machine = record { state = backup_failed; calls = [] } }) ≡ (
          Effects.raise value_error,
          record (fresh 1) { machine = record { state = backup_failed; calls = [] } },
        ))
reset_lem_example =
    reset_lem (record (fresh 1) { machine = record { state = backup_failed; calls = [] } })
