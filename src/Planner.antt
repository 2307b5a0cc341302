-- ===== src/Planner.antt =====
-- aethereal/backup/planner.py: the immutable plan of a backup job, and the links that spare a
-- second copy of the same content. The proofs are in the children.
pub mod Actions
pub mod Counts
pub mod Dedup
pub mod Order
use pi_mobile_photobackup.Prelude.{
  ℕ, ◌+◌, max, Text, codes, Bool, true, false, not, ◌||◌, Option, none, some, List, [], ◌∷◌, ◌++◌,
  ◌==◌, text_le, if◌then◌else◌,
}
use pi_mobile_photobackup.Prelude.Maybe.{◌>>=◌}
use pi_mobile_photobackup.Identity.{ContentIdentity, identity_in}
use pi_mobile_photobackup.Classification.{
  FileClassification, new, already_backed_up, potential_conflict, unsupported, unreadable,
}

pub data FileAction : Type 0 where
  copy_verify_object_and_link link_existing_verified_object : FileAction
  link_new_object_same_job skip_unsupported block_conflict block_unreadable : FileAction

pub record ClassifiedFile : Type 0 where
  pub relative_path : Text
  pub identity : Option ContentIdentity
  pub size_bytes : ℕ
  pub classification : FileClassification

pub record PlannedFile : Type 0 where
  pub relative_path : Text
  pub session_path : Text
  pub identity : Option ContentIdentity
  pub classification : FileClassification
  pub action : FileAction
  pub planned_size_bytes : ℕ

pub record Plan : Type 0 where
  pub files : List PlannedFile
  pub new_object_bytes : ℕ
  pub new_object_count : ℕ
  pub already_backed_up_count : ℕ
  pub intra_job_duplicate_count : ℕ
  pub conflict_count : ℕ
  pub unreadable_count : ℕ
  pub unsupported_count : ℕ
  pub largest_new_object_bytes : ℕ
  pub blocked : Bool
  pub block_reasons : List Text

-- `path.rstrip('/')`: a slash is dropped where only slashes follow it.
keep_unless_slash : ℕ → Text → Text
keep_unless_slash c [] = if c == 47 then [] else c ∷ []
keep_unless_slash c (d ∷ rest) = c ∷ d ∷ rest

unfoldable pub rstrip_slash : Text → Text
unfolding keep_unless_slash
rstrip_slash [] = []
rstrip_slash (c ∷ rest) = keep_unless_slash c (rstrip_slash rest)

unfoldable pub session_path_of : Text → Text → Text
unfolding rstrip_slash
session_path_of session_root relative_path =
    rstrip_slash session_root ++ (codes "/" ++ relative_path)

-- `sorted(items, key=...)`, which is stable: a file goes before the first one that is not less.
unfoldable pub insert_file : ClassifiedFile → List ClassifiedFile → List ClassifiedFile
insert_file x [] = x ∷ []
insert_file x (y ∷ ys) =
    let later = insert_file x ys in
    if text_le x.relative_path y.relative_path then x ∷ y ∷ ys else y ∷ later

unfoldable pub sort_files : List ClassifiedFile → List ClassifiedFile
unfolding insert_file
sort_files [] = []
sort_files (x ∷ xs) = insert_file x (sort_files xs)

-- The local variables of the loop of `build_plan`.
pub record Tally : Type 0 where
  pub planned : List PlannedFile
  pub seen_new : List ContentIdentity
  pub new_object_bytes : ℕ
  pub new_object_count : ℕ
  pub already : ℕ
  pub intra_dupes : ℕ
  pub conflicts : ℕ
  pub unreadable_files : ℕ
  pub unsupported_files : ℕ
  pub largest_new : ℕ
  pub block_reasons : List Text

abbrev pub empty_tally : Tally
empty_tally = record {
  planned = [];
  seen_new = [];
  new_object_bytes = 0;
  new_object_count = 0;
  already = 0;
  intra_dupes = 0;
  conflicts = 0;
  unreadable_files = 0;
  unsupported_files = 0;
  largest_new = 0;
  block_reasons = [];
}

-- `planned.append(PlannedFile(...))`
unfoldable pub append_planned : Text → ClassifiedFile → FileAction → Tally → Tally
append_planned session_root item action t = record t {
  planned =
      t.planned
      ++ record {
        relative_path = item.relative_path;
        session_path = session_path_of session_root item.relative_path;
        identity = item.identity;
        classification = item.classification;
        action = action;
        planned_size_bytes = item.size_bytes;
      }
        ∷ [];
}

-- The branch of a NEW file. `none` is the failed `assert` on its identity.
unfoldable pub plan_new : Text → ClassifiedFile → Option ContentIdentity → Tally → Option Tally
plan_new session_root item none t = none
plan_new session_root item (some identity) t =
    if identity_in identity t.seen_new
    then some (
        append_planned session_root item link_new_object_same_job
          (record t { intra_dupes = t.intra_dupes + 1 }))
    else some (
        append_planned session_root item copy_verify_object_and_link (record t {
          seen_new = identity ∷ t.seen_new;
          new_object_count = t.new_object_count + 1;
          new_object_bytes = t.new_object_bytes + item.size_bytes;
          largest_new = max t.largest_new item.size_bytes;
        }))

unfoldable pub plan_by : FileClassification → Text → ClassifiedFile → Tally → Option Tally
unfolding plan_new
plan_by unreadable root item t = some (
    append_planned root item block_unreadable (record t {
      unreadable_files = t.unreadable_files + 1;
      block_reasons = t.block_reasons ++ (codes "unreadable: " ++ item.relative_path) ∷ [];
    }))
plan_by potential_conflict root item t = some (
    append_planned root item block_conflict (record t {
      conflicts = t.conflicts + 1;
      block_reasons = t.block_reasons ++ (codes "conflict: " ++ item.relative_path) ∷ [];
    }))
plan_by already_backed_up root item t =
    some (
      append_planned root item link_existing_verified_object (record t { already = t.already + 1 }))
plan_by new root item t = plan_new root item item.identity t
plan_by unsupported root item t = some (
    append_planned root item skip_unsupported
      (record t { unsupported_files = t.unsupported_files + 1 }))

-- One round of the loop.
unfoldable pub plan_file : Text → ClassifiedFile → Tally → Option Tally
unfolding plan_by
plan_file root item t = plan_by item.classification root item t

unfoldable pub plan_files : Text → List ClassifiedFile → Tally → Option Tally
plan_files root [] t = some t
plan_files root (item ∷ items) t = do t' ← plan_file root item t; plan_files root items t'

unfoldable pub plan_of : Tally → Plan
plan_of t = record {
  files = t.planned;
  new_object_bytes = t.new_object_bytes;
  new_object_count = t.new_object_count;
  already_backed_up_count = t.already;
  intra_job_duplicate_count = t.intra_dupes;
  conflict_count = t.conflicts;
  unreadable_count = t.unreadable_files;
  unsupported_count = t.unsupported_files;
  largest_new_object_bytes = t.largest_new;
  blocked = not (t.conflicts == 0) || not (t.unreadable_files == 0);
  block_reasons = t.block_reasons;
}

unfoldable pub build_plan : List ClassifiedFile → Text → Option Plan
build_plan items session_root = do
  t ← plan_files session_root (sort_files items) empty_tally
  some (plan_of t)
