-- ===== src/Recovery.antt =====
-- aethereal/backup/recovery.py: after an interruption, every object left in PENDING_FINALIZE is
-- finalized or discarded, and partial copies are removed. The proofs are in Recovery/Partials.antt.
pub mod Partials
use pi_mobile_photobackup.Prelude.{
  ℕ, zero, suc, ◌+◌, Text, codes, Bool, true, false, not, ◌&&◌, Option, none, some, List, [], ◌∷◌,
  ◌++◌, map, text_eq, filter_p, ◌==◌, if◌then◌else◌,
}
use mathlib.Core.List.{reverse}
use pi_mobile_photobackup.Identity.{
  Sha256, ContentIdentity, Hashed, hashed, bad_chunk_size, out_of_fuel, hash_stream, identity_eq,
}
use pi_mobile_photobackup.ObjectStore.{object_path, default_partial_suffix}
use pi_mobile_photobackup.Effects
use pi_mobile_photobackup.Effects.{
  Exec, pure, throw, gets, require, ◌>>=◌, ◌>>◌, file_not_found, value_error, integrity_error,
}
use pi_mobile_photobackup.Files
use pi_mobile_photobackup.Files.{unlink, inode, blob, exists}
use pi_mobile_photobackup.Manifest.{
  Manifest, PendingObject, EntryRow, list_pending_finalize, pending_session_entries,
  finalize_session_entry_by_id, mark_content_object_verified, delete_pending_entries, delete_object,
  starts_with,
}
use pi_mobile_photobackup.World.{World, Environment, Action, on_files, on_db, try_db}
use pi_mobile_photobackup.Copier.{link_into_session}

pub record RecoveryReport : Type 0 where
  pub finalized : ℕ
  pub discarded : ℕ
  pub orphan_partials_removed : ℕ

-- `rglob("*.aethereal-partial")` below the root.
unfoldable pub is_partial_under : Text → Text → Bool
unfolding starts_with
is_partial_under root path =
    starts_with (root ++ codes "/") path
    && starts_with (reverse default_partial_suffix) (reverse path)

unfoldable pub remove_partials : List Text → ℕ → Action ℕ
remove_partials [] removed = pure removed
remove_partials (p ∷ ps) removed = do on_files (unlink p); remove_partials ps (suc removed)

unfoldable pub remove_orphan_partials : Text → Action ℕ
unfolding remove_partials gets is_partial_under
remove_orphan_partials root = do
  partials ← gets (λ w. filter_p (is_partial_under root) (map (λ n. n.0) w.files.names))
  remove_partials partials 0

-- The session links of one object are made, and their entries finalized.
unfoldable pub finish_entries : Text → List EntryRow → Action (Unit {0})
unfolding link_into_session
finish_entries final [] = pure tt
finish_entries final (e ∷ es) = do
  link_into_session final e.session_path
  on_db (λ m. (tt, finalize_session_entry_by_id e.row_id m))
  finish_entries final es

-- Which file is the candidate: the final object, else the temporary one.
pub data Candidate : Type 0 where
  at_final at_temp : Text → Candidate
  nowhere : Candidate

unfoldable pub candidate_of : Text → Option Text → World → Candidate
unfolding exists
candidate_of final none w = if exists final w.files then at_final final else nowhere
candidate_of final (some temp) w =
    if exists final w.files
    then at_final final
    else if exists temp w.files
    then at_temp temp
    else nowhere

module _ (sha : Sha256) (chunk_bytes : ℕ) where
  -- `content_identity_of_path(candidate) == expected`
  same_identity : ContentIdentity → Hashed → Action Bool
  unfolding pure throw
  same_identity expected (hashed c) = pure (identity_eq c expected)
  same_identity expected bad_chunk_size = throw value_error
  same_identity expected out_of_fuel = throw Effects.out_of_fuel

  unfoldable pub holds_identity : ContentIdentity → Text → Action Bool
  unfolding same_identity gets require
  holds_identity expected path = do
    name ← gets (λ w. inode path w.files)
    i ← require file_not_found name
    content ← gets (λ w. blob i w.files)
    same_identity expected (hash_stream sha content chunk_bytes)

  -- The candidate is there and rehashes to the expected identity.
  unfoldable pub is_proved : ContentIdentity → Candidate → Action Bool
  unfolding holds_identity
  is_proved expected (at_final p) = holds_identity expected p
  is_proved expected (at_temp p) = holds_identity expected p
  is_proved expected nowhere = pure false

  unfoldable pub move_into_place : Text → Candidate → Action (Unit {0})
  unfolding gets require pure
  move_into_place final (at_temp temp) = do
    name ← gets (λ w. inode temp w.files)
    i ← require file_not_found name
    on_files (Files.replace temp i final)
  move_into_place final _ = pure tt

  unfoldable pub finalize_pending : Text → PendingObject → Candidate → Action (Unit {0})
  unfolding move_into_place finish_entries
  finalize_pending final p candidate = do
    move_into_place final candidate
    entries ← gets (λ w. pending_session_entries p.object_id w.db)
    finish_entries final entries
    on_db (mark_content_object_verified p.content_identity_id final)
    pure tt

  unlink_temp : Option Text → Action (Unit {0})
  unfolding pure
  unlink_temp none = pure tt
  unlink_temp (some temp) = on_files (unlink temp)

  -- `None` of a deletion that breaks a foreign key is the `IntegrityError`.
  deleted : Option Manifest → Option (Unit {0} × Manifest)
  deleted none = none
  deleted (some m) = some (tt, m)

  unfoldable pub discard_pending : Text → PendingObject → Action (Unit {0})
  unfolding unlink_temp deleted
  discard_pending final p = do
    unlink_temp p.temp_path
    there ← gets (λ w. exists final w.files)
    if there then on_files (unlink final) else pure tt
    on_db (λ m. (tt, delete_pending_entries p.object_id m))
    try_db (λ m. deleted (delete_object p.object_id m))

  final_of : Text → PendingObject → Option Text
  final_of root p = elim p.final_path [
    | some path ↦ some path
    | none ↦ object_path root p.identity.sha256
  ]

  -- One round of the loop: whether the object was finalized.
  unfoldable pub reconcile : Text → PendingObject → Action Bool
  unfolding finalize_pending discard_pending is_proved final_of candidate_of
  reconcile root p = do
    final ← require value_error (final_of root p)
    candidate ← gets (candidate_of final p.temp_path)
    proved ← is_proved p.identity candidate
    if proved
        then (do finalize_pending final p candidate; pure true)
        else (do discard_pending final p; pure false)

  unfoldable pub reconcile_all : Text → List PendingObject → ℕ → ℕ → Action (ℕ × ℕ)
  unfolding reconcile
  reconcile_all root [] finalized discarded = pure (finalized, discarded)
  reconcile_all root (p ∷ ps) finalized discarded = do
    proved ← reconcile root p
    reconcile_all root ps (if proved then suc finalized else finalized)
        (if proved then discarded else suc discarded)

  unfoldable pub recover_destination : Text → Action RecoveryReport
  unfolding reconcile_all remove_orphan_partials
  recover_destination root = do
    pending ← gets (λ w. list_pending_finalize w.db)
    (finalized, discarded) ← reconcile_all root pending 0 0
    orphans ← remove_orphan_partials root
    pure
        (record { finalized = finalized; discarded = discarded; orphan_partials_removed = orphans })
