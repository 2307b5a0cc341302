-- ===== src/Tests/Copying.antt =====
-- Examples for the copier, the runner and the recovery.
use pi_mobile_photobackup.Files
use pi_mobile_photobackup.Identity
use pi_mobile_photobackup.ObjectStore
use pi_mobile_photobackup.Manifest
use pi_mobile_photobackup.World
use pi_mobile_photobackup.Journal
use pi_mobile_photobackup.Prelude.{
  text_eq, subst, arith, ◌+◌, ◌≤◌, ◌≡◌, refl, Text, codes, true, false, some, List, [], ◌∷◌, ◌⊎◌,
  length, All,
}
use pi_mobile_photobackup.Effects
use pi_mobile_photobackup.Effects.{Error, Result}
use pi_mobile_photobackup.Identity.{ContentIdentity, hash_stream, hashed, content_identity_of_bytes}
use pi_mobile_photobackup.Identity.Streaming.{hash_stream_lem}
use pi_mobile_photobackup.Files.{exists}
use pi_mobile_photobackup.Manifest.{has_verified_object, list_pending_finalize}
use pi_mobile_photobackup.World.{World}
use pi_mobile_photobackup.Runner
use pi_mobile_photobackup.Runner.{JobRunResult, Progress, run_job}
use pi_mobile_photobackup.Runner.Safety.{CanRun, run_job-crash_safe}
use pi_mobile_photobackup.Runner.Accounts.{Accounts, run_job-Accounts}
use pi_mobile_photobackup.Recovery
use pi_mobile_photobackup.Recovery.{RecoveryReport, is_partial_under, recover_destination}
use pi_mobile_photobackup.Recovery.Partials.{recover_destination_complete}
use pi_mobile_photobackup.Classification.{new}
use pi_mobile_photobackup.Planner.{FileAction, copy_verify_object_and_link, PlannedFile, Plan}
use pi_mobile_photobackup.Prelude.Maybe.{eq_of_some}
use pi_mobile_photobackup.World.Rules.{After}
use pi_mobile_photobackup.World.Store.{Sound, IsDigest}
use pi_mobile_photobackup.Copier
use pi_mobile_photobackup.Copier.{CopyResult, copy_verify_finalize}
use pi_mobile_photobackup.Copier.Safety.{Stored, copy_verify_finalize-crash_safe}
use pi_mobile_photobackup.Copier.Reported.{ThreeWay, copy_verify_finalize_reports}
use pi_mobile_photobackup.Tests.{
  one_job, toy_sha, toy_digest, toy-IsDigest, photo, photo_identity, root, session,
  session-IsObjectPath, card, world, world-Sound,
}

copy_verify_finalize-crash_safe_example :
    After (Stored toy_sha root photo_identity) (Sound toy_sha root) (
      copy_verify_finalize toy_sha card 2
        (codes "J")
        (codes "/s/x")
        session
        photo_identity
        root
        1
        world)
copy_verify_finalize-crash_safe_example =
    copy_verify_finalize-crash_safe toy_sha card 2 root (codes "J") (codes "/s/x") session
      photo_identity (toy-IsDigest photo) session-IsObjectPath 1 world world-Sound

abbrev copied : Result CopyResult × World
copied =
    copy_verify_finalize toy_sha card 2 (codes "J") (codes "/s/x") session photo_identity root 1
      world

abbrev copied_result : CopyResult
copied_result = record {
  outcome = Copier.verified;
  object_path = codes "/o/aa/aa/aaaaefg";
  session_path = session;
  expected_sha256 = toy_digest photo;
  copy_stream_sha256 = some (toy_digest photo);
  destination_sha256 = some (toy_digest photo);
  bytes_written = 3;
  attempts = 1;
}

copied_ok : copied ≡ (Effects.ok copied_result, copied.1)
unfolding Effects.pure Effects.throw Effects.gets Effects.require Effects.◌>>=◌ Files.find_name
    Files.drop_name Files.find_blob Files.exists Files.unlink Files.create Files.write Files.link
    Files.replace Identity.identity_eq Identity.identity_in Identity.hash_loop Identity.hash_stream
    Identity.content_identity_of_bytes ObjectStore.object_relative_path ObjectStore.object_path
    ObjectStore.partial_path Manifest.next_id Manifest.find_identity Manifest.content_identity_id
    Manifest.upsert_content_identity Manifest.names_identity Manifest.any_verified
    Manifest.has_verified_object Manifest.find_object Manifest.update_object
    Manifest.upsert_content_object_pending Manifest.mark_content_object_verified Manifest.has_job
    Manifest.has_object Manifest.create_backup_job Manifest.starts_with Manifest.count_jobs_for_date
    Manifest.update_job Manifest.set_backup_job_state Manifest.finish_backup_job
    Manifest.list_incomplete_jobs Manifest.insert_session_entry Manifest.find_entry
    Manifest.update_entry Manifest.finalize_session_entry Manifest.pending_rows
    Manifest.pending_objects Manifest.list_pending_finalize Manifest.pending_session_entries
    Manifest.finalize_session_entry_by_id Manifest.delete_pending_entries Manifest.delete_object
    Manifest.verified_sizes World.on_files World.on_db World.try_db World.open_source
    Journal.record_pending_finalize Journal.mark_verified Copier.failed_outcome Copier.copy_loop
    Copier.digest_of Copier.create_exclusive Copier.link_into_session Copier.link_result
    Copier.link_verified_object Copier.write_partial Copier.verify_landed Copier.copy_delivered
    Copier.copy_and_verify_once Copier.rename Copier.finalize Copier.copy_rounds
    Copier.copy_verify_finalize text_eq
copied_ok = refl

copy_verify_finalize_reports_example :
    (copied_result.attempts ≤ 2)
    × (copied_result.outcome ≡ Copier.verified
        → (has_verified_object photo_identity copied.1.db ≡ true)
          × ((copied_result.attempts ≡ 0) ⊎ ThreeWay photo_identity copied_result))
copy_verify_finalize_reports_example =
    copy_verify_finalize_reports photo_identity toy_sha card 2 (codes "J") (codes "/s/x") session
      root 1 world copied.1 copied_result copied_ok

abbrev photo_file : Text → FileAction → PlannedFile
photo_file name action = record {
  relative_path = name;
  session_path = session;
  identity = some photo_identity;
  classification = new;
  action = action;
  planned_size_bytes = 3;
}

abbrev plan : Plan
plan = record {
  files = photo_file (codes "x") copy_verify_object_and_link ∷ [];
  new_object_bytes = 3;
  new_object_count = 1;
  already_backed_up_count = 0;
  intra_job_duplicate_count = 0;
  conflict_count = 0;
  unreadable_count = 0;
  unsupported_count = 0;
  largest_new_object_bytes = 3;
  blocked = false;
  block_reasons = [];
}

plan-CanRun : All (CanRun root) plan.files
plan-CanRun = (
  record {
    digest = λ c e. subst (λ i. IsDigest i.sha256) (eq_of_some e) (toy-IsDigest photo);
    session = session-IsObjectPath;
  },
  tt,
)

run_job-crash_safe_example :
    After
      (λ _. Sound toy_sha root)
      (Sound toy_sha root)
      (run_job toy_sha card 2 1 (λ _. false) (codes "J") (codes "/s") root plan world)
run_job-crash_safe_example =
    run_job-crash_safe toy_sha card 2 1 root (codes "J") (codes "/s") (λ _. false) plan world
      plan-CanRun world-Sound

abbrev ran : Result (JobRunResult × List Progress) × World
ran = run_job toy_sha card 2 1 (λ _. false) (codes "J") (codes "/s") root plan world

abbrev ran_result : JobRunResult
ran_result = record {
  outcome = Runner.completed;
  files_verified = 1;
  files_copied = 1;
  files_skipped = 0;
  files_failed = 0;
  bytes_copied = 3;
  failures = [];
}

abbrev ran_progress : List Progress
ran_progress =
    record { done = 1; total = 1; done_bytes = 3; total_bytes = 3; current_file = codes "x" } ∷ []

ran_ok : ran ≡ (Effects.ok (ran_result, ran_progress), ran.1)
unfolding Effects.pure Effects.throw Effects.gets Effects.require Effects.◌>>=◌ Files.find_name
    Files.drop_name Files.find_blob Files.exists Files.unlink Files.create Files.write Files.link
    Files.replace Identity.identity_eq Identity.identity_in Identity.hash_loop Identity.hash_stream
    Identity.content_identity_of_bytes ObjectStore.object_relative_path ObjectStore.object_path
    ObjectStore.partial_path Manifest.next_id Manifest.find_identity Manifest.content_identity_id
    Manifest.upsert_content_identity Manifest.names_identity Manifest.any_verified
    Manifest.has_verified_object Manifest.find_object Manifest.update_object
    Manifest.upsert_content_object_pending Manifest.mark_content_object_verified Manifest.has_job
    Manifest.has_object Manifest.create_backup_job Manifest.starts_with Manifest.count_jobs_for_date
    Manifest.update_job Manifest.set_backup_job_state Manifest.finish_backup_job
    Manifest.list_incomplete_jobs Manifest.insert_session_entry Manifest.find_entry
    Manifest.update_entry Manifest.finalize_session_entry Manifest.pending_rows
    Manifest.pending_objects Manifest.list_pending_finalize Manifest.pending_session_entries
    Manifest.finalize_session_entry_by_id Manifest.delete_pending_entries Manifest.delete_object
    Manifest.verified_sizes World.on_files World.on_db World.try_db World.open_source
    Journal.record_pending_finalize Journal.mark_verified Copier.failed_outcome Copier.copy_loop
    Copier.digest_of Copier.create_exclusive Copier.link_into_session Copier.link_result
    Copier.link_verified_object Copier.write_partial Copier.verify_landed Copier.copy_delivered
    Copier.copy_and_verify_once Copier.rename Copier.finalize Copier.copy_rounds
    Copier.copy_verify_finalize Runner.count_failure Runner.report Runner.count_copy
    Runner.count_link Runner.try_except Runner.copy_file Runner.link_file Runner.run_action
    Runner.run_file Runner.run_files Runner.job_outcome Runner.result_of Runner.run_job text_eq
ran_ok = refl

run_job-Accounts_example : Accounts plan ran_result
run_job-Accounts_example =
    run_job-Accounts toy_sha card 2 1 (codes "J") (codes "/s") root (λ _. false) plan world ran.1
      ran_result ran_progress ran_ok

-- A job was interrupted between the journal and the rename.
abbrev interrupted_world : World
interrupted_world = record {
  files = record {
    names = (codes "/o/aa/aa/aaaaefg.aethereal-partial", 0) ∷ [];
    blobs = (0, photo) ∷ [];
    next_inode = 1;
  };
  db = record one_job {
    identities = record { row_id = 1; identity = photo_identity } ∷ [];
    objects =
        record {
          row_id = 1;
          content_identity_id = 1;
          object_path = codes "/o/aa/aa/aaaaefg";
          status = Manifest.pending_finalize;
          pending_temp_path = some (codes "/o/aa/aa/aaaaefg.aethereal-partial");
          pending_final_path = some (codes "/o/aa/aa/aaaaefg");
        }
        ∷ [];
    entries =
        record {
          row_id = 1;
          backup_job_id = codes "J";
          content_object_id = 1;
          session_path = session;
          state = Manifest.entry_pending;
        }
        ∷ [];
  };
  power = 100;
  opened = 0;
  written = 0;
}

abbrev recovered : Result RecoveryReport × World
recovered = recover_destination toy_sha 2 root interrupted_world

abbrev recovered_report : RecoveryReport
recovered_report = record { finalized = 1; discarded = 0; orphan_partials_removed = 0 }

recovered_ok : recovered ≡ (Effects.ok recovered_report, recovered.1)
unfolding Effects.pure Effects.throw Effects.gets Effects.require Effects.◌>>=◌ Files.find_name
    Files.drop_name Files.find_blob Files.exists Files.unlink Files.create Files.write Files.link
    Files.replace Identity.identity_eq Identity.identity_in Identity.hash_loop Identity.hash_stream
    Identity.content_identity_of_bytes ObjectStore.object_relative_path ObjectStore.object_path
    ObjectStore.partial_path Manifest.next_id Manifest.find_identity Manifest.content_identity_id
    Manifest.upsert_content_identity Manifest.names_identity Manifest.any_verified
    Manifest.has_verified_object Manifest.find_object Manifest.update_object
    Manifest.upsert_content_object_pending Manifest.mark_content_object_verified Manifest.has_job
    Manifest.has_object Manifest.create_backup_job Manifest.starts_with Manifest.count_jobs_for_date
    Manifest.update_job Manifest.set_backup_job_state Manifest.finish_backup_job
    Manifest.list_incomplete_jobs Manifest.insert_session_entry Manifest.find_entry
    Manifest.update_entry Manifest.finalize_session_entry Manifest.pending_rows
    Manifest.pending_objects Manifest.list_pending_finalize Manifest.pending_session_entries
    Manifest.finalize_session_entry_by_id Manifest.delete_pending_entries Manifest.delete_object
    Manifest.verified_sizes World.on_files World.on_db World.try_db World.open_source
    Journal.record_pending_finalize Journal.mark_verified Copier.failed_outcome Copier.copy_loop
    Copier.digest_of Copier.create_exclusive Copier.link_into_session Copier.link_result
    Copier.link_verified_object Copier.write_partial Copier.verify_landed Copier.copy_delivered
    Copier.copy_and_verify_once Copier.rename Copier.finalize Copier.copy_rounds
    Copier.copy_verify_finalize Recovery.is_partial_under Recovery.remove_partials
    Recovery.remove_orphan_partials Recovery.finish_entries Recovery.candidate_of
    Recovery.holds_identity Recovery.is_proved Recovery.move_into_place Recovery.finalize_pending
    Recovery.discard_pending Recovery.reconcile Recovery.reconcile_all Recovery.recover_destination
    text_eq
recovered_ok = refl

recover_destination_complete_example :
    ((q : Text) → is_partial_under root q ≡ true → exists q recovered.1.files ≡ false)
    × (1 + 0 ≡ length (list_pending_finalize interrupted_world.db))
recover_destination_complete_example =
    recover_destination_complete root toy_sha 2 interrupted_world recovered.1 recovered_report
      recovered_ok

hash_stream_lem_example :
    hash_stream toy_sha photo 2 ≡ hashed (content_identity_of_bytes toy_sha photo)
hash_stream_lem_example = hash_stream_lem toy_sha photo 2 (omega arith)
