-- ===== src/Journal.antt =====
-- aethereal/backup/manifest_journal.py: the finalize journal of one job.
use pi_mobile_photobackup.Prelude.{ℕ, Text}
use pi_mobile_photobackup.Effects.{◌>>=◌}
use pi_mobile_photobackup.Identity.{ContentIdentity}
use pi_mobile_photobackup.Manifest.{
  upsert_content_identity, upsert_content_object_pending, mark_content_object_verified,
  insert_session_entry, finalize_session_entry, entry_pending,
}
use pi_mobile_photobackup.World.{Action, on_db, try_db}

unfoldable pub record_pending_finalize : Text → ContentIdentity → Text → Text → Text → Action ℕ
record_pending_finalize job_id identity temp_path final_path session_path = do
  identity_id ← on_db (upsert_content_identity identity)
  object_id ← on_db (upsert_content_object_pending identity_id final_path temp_path)
  try_db (insert_session_entry job_id object_id session_path entry_pending)

unfoldable pub mark_verified : Text → ContentIdentity → Text → Text → Action ℕ
mark_verified job_id identity object_path session_path = do
  identity_id ← on_db (upsert_content_identity identity)
  object_id ← on_db (mark_content_object_verified identity_id object_path)
  try_db (finalize_session_entry job_id object_id session_path)
