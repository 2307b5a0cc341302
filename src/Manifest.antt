-- ===== src/Manifest.antt =====
-- aethereal/db/manifest_repo.py over the tables of db/destination.py: each method that writes is
-- one statement of an SQLite connection in autocommit mode, so it takes place whole or not at all
-- (`discard_pending_object` is two). Time stamps and the columns that nothing reads are left out.
-- A row id is one more than the greatest in use, as SQLite gives it to an INTEGER PRIMARY KEY.
pub mod Lookup
use pi_mobile_photobackup.Prelude.{
  ℕ, suc, ◌+◌, max, Text, codes, Bool, true, false, not, ◌&&◌, ◌||◌, Option, none, some, List, [],
  ◌∷◌, ◌++◌, map, ◌==◌, text_eq, filter_p, count_p, length, sum_p, if◌then◌else◌,
}
use pi_mobile_photobackup.Identity.{ContentIdentity, identity_eq}

pub record IdentityRow : Type 0 where
  pub row_id : ℕ
  pub identity : ContentIdentity

pub data ObjectStatus : Type 0 where
  pending_finalize verified : ObjectStatus

pub record ObjectRow : Type 0 where
  pub row_id : ℕ
  pub content_identity_id : ℕ
  pub object_path : Text
  pub status : ObjectStatus
  pub pending_temp_path : Option Text
  pub pending_final_path : Option Text

pub data EntryState : Type 0 where
  entry_pending entry_verified : EntryState

pub record EntryRow : Type 0 where
  pub row_id : ℕ
  pub backup_job_id : Text
  pub content_object_id : ℕ
  pub session_path : Text
  pub state : EntryState

-- What `finish_backup_job` writes.
pub record JobCounts : Type 0 where
  pub files_copied : ℕ
  pub files_skipped : ℕ
  pub files_failed : ℕ
  pub files_verified : ℕ
  pub copied_bytes : ℕ

pub record JobRow : Type 0 where
  pub job_id : Text
  pub state : Text
  pub session_path : Text
  pub counts : Option JobCounts

pub record Manifest : Type 0 where
  pub identities : List IdentityRow
  pub objects : List ObjectRow
  pub entries : List EntryRow
  pub jobs : List JobRow

abbrev pub empty_manifest : Manifest
empty_manifest = record { identities = []; objects = []; entries = []; jobs = [] }

-- One more than the greatest row id.
unfoldable pub next_id : List ℕ → ℕ
next_id [] = 1
next_id (i ∷ is) = max (suc i) (next_id is)

-- `SELECT id FROM content_identity WHERE size_bytes = ? AND sha256 = ?`
unfoldable pub find_identity : ContentIdentity → List IdentityRow → Option ℕ
find_identity c [] = none
find_identity c (r ∷ rs) = if identity_eq r.identity c then some r.row_id else find_identity c rs

unfoldable pub content_identity_id : ContentIdentity → Manifest → Option ℕ
unfolding find_identity
content_identity_id c m = find_identity c m.identities

abbrev pub identity_row_ids : List IdentityRow → List ℕ
identity_row_ids = map (λ r. r.row_id)

unfoldable pub upsert_content_identity : ContentIdentity → Manifest → ℕ × Manifest
upsert_content_identity c m = elim (find_identity c m.identities) [
  | some i ↦ (i, m)
  | none ↦
      let i = next_id (identity_row_ids m.identities) in
      (i, record m { identities = m.identities ++ record { row_id = i; identity = c } ∷ [] })
]

abbrev pub is_verified : ObjectStatus → Bool
is_verified verified = true
is_verified pending_finalize = false

-- The join on the identity: some row with this id holds this identity.
unfoldable pub names_identity : ℕ → ContentIdentity → List IdentityRow → Bool
names_identity i c [] = false
names_identity i c (r ∷ rs) = (r.row_id == i && identity_eq r.identity c) || names_identity i c rs

unfoldable pub any_verified : ContentIdentity → List IdentityRow → List ObjectRow → Bool
unfolding names_identity
any_verified c ids [] = false
any_verified c ids (o ∷ os) =
    (is_verified o.status && names_identity o.content_identity_id c ids) || any_verified c ids os

unfoldable pub has_verified_object : ContentIdentity → Manifest → Bool
unfolding any_verified
has_verified_object c m = any_verified c m.identities m.objects

-- `SELECT id FROM content_object WHERE content_identity_id = ? LIMIT 1`
unfoldable pub find_object : ℕ → List ObjectRow → Option ℕ
find_object i [] = none
find_object i (o ∷ os) = if o.content_identity_id == i then some o.row_id else find_object i os

-- `UPDATE content_object SET ... WHERE id = ?`
unfoldable pub update_object : ℕ → (ObjectRow → ObjectRow) → List ObjectRow → List ObjectRow
update_object i change [] = []
update_object i change (o ∷ os) =
    (if o.row_id == i then change o else o) ∷ update_object i change os

abbrev pub object_row_ids : List ObjectRow → List ℕ
object_row_ids = map (λ o. o.row_id)

unfoldable pub upsert_content_object_pending : ℕ → Text → Text → Manifest → ℕ × Manifest
unfolding find_object update_object
upsert_content_object_pending identity_id object_path temp_path m =
    elim (find_object identity_id m.objects) [
      | some existing ↦ (
        existing,
        record m {
          objects =
              update_object existing
                (λ o. record o {
                  status = pending_finalize;
                  object_path = object_path;
                  pending_temp_path = some temp_path;
                  pending_final_path = some object_path;
                })
                m.objects;
        },
      )
      | none ↦
          let i = next_id (object_row_ids m.objects) in
          (
            i,
            record m {
              objects =
                  m.objects
                  ++ record {
                    row_id = i;
                    content_identity_id = identity_id;
                    object_path = object_path;
                    status = pending_finalize;
                    pending_temp_path = some temp_path;
                    pending_final_path = some object_path;
                  }
                    ∷ [];
            },
          )
    ]

-- `insert_content_object` with status VERIFIED is the second branch.
unfoldable pub mark_content_object_verified : ℕ → Text → Manifest → ℕ × Manifest
unfolding find_object update_object
mark_content_object_verified identity_id object_path m = elim (find_object identity_id m.objects) [
  | some existing ↦ (
    existing,
    record m {
      objects =
          update_object existing
            (λ o. record o {
              status = verified;
              object_path = object_path;
              pending_temp_path = none;
              pending_final_path = none;
            })
            m.objects;
    },
  )
  | none ↦
      let i = next_id (object_row_ids m.objects) in
      (
        i,
        record m {
          objects =
              m.objects
              ++ record {
                row_id = i;
                content_identity_id = identity_id;
                object_path = object_path;
                status = verified;
                pending_temp_path = none;
                pending_final_path = none;
              }
                ∷ [];
        },
      )
]

-- The job is there (foreign keys are on, and job ids are a primary key).
unfoldable pub has_job : Text → List JobRow → Bool
has_job job_id [] = false
has_job job_id (j ∷ js) = text_eq j.job_id job_id || has_job job_id js

unfoldable pub has_object : ℕ → List ObjectRow → Bool
has_object i [] = false
has_object i (o ∷ os) = o.row_id == i || has_object i os

-- `none` is the `IntegrityError` of a second job with the id.
unfoldable pub create_backup_job : Text → Text → Text → Manifest → Option Manifest
unfolding has_job
create_backup_job job_id state session_path m =
    if has_job job_id m.jobs
    then none
    else some (record m {
      jobs =
          m.jobs
          ++ record { job_id = job_id; state = state; session_path = session_path; counts = none }
            ∷ [];
    })

-- `id LIKE 'prefix%'`, for a prefix with no wildcard.
unfoldable pub starts_with : Text → Text → Bool
starts_with [] t = true
starts_with (c ∷ cs) [] = false
starts_with (c ∷ cs) (d ∷ ds) = c == d && starts_with cs ds

unfoldable pub count_jobs_for_date : Text → Manifest → ℕ
unfolding starts_with
count_jobs_for_date id_prefix m = count_p (λ j. starts_with id_prefix j.job_id) m.jobs

unfoldable pub update_job : Text → (JobRow → JobRow) → List JobRow → List JobRow
update_job job_id change [] = []
update_job job_id change (j ∷ js) =
    (if text_eq j.job_id job_id then change j else j) ∷ update_job job_id change js

unfoldable pub set_backup_job_state : Text → Text → Manifest → Manifest
unfolding update_job
set_backup_job_state job_id state m = record m {
  jobs = update_job job_id (λ j. record j { state = state }) m.jobs;
}

unfoldable pub finish_backup_job : Text → Text → JobCounts → Manifest → Manifest
unfolding update_job
finish_backup_job job_id state counts m = record m {
  jobs = update_job job_id (λ j. record j { state = state; counts = some counts }) m.jobs;
}

abbrev pub is_incomplete : Text → Bool
is_incomplete state =
    text_eq state (codes "BACKUP_COPYING")
    || text_eq state (codes "BACKUP_VERIFYING")
    || text_eq state (codes "BACKUP_CANCELLING")

unfoldable pub list_incomplete_jobs : Manifest → List Text
list_incomplete_jobs m = map (λ j. j.job_id) (filter_p (λ j. is_incomplete j.state) m.jobs)

abbrev entry_row_ids : List EntryRow → List ℕ
entry_row_ids = map (λ e. e.row_id)

-- `none` is the `IntegrityError` of a missing job or object.
unfoldable pub insert_session_entry :
    Text → ℕ → Text → EntryState → Manifest → Option (ℕ × Manifest)
unfolding has_job has_object next_id
insert_session_entry job_id object_id session_path state m =
    if has_job job_id m.jobs && has_object object_id m.objects
    then (let i = next_id (entry_row_ids m.entries) in
        some (
          i,
          record m {
            entries =
                m.entries
                ++ record {
                  row_id = i;
                  backup_job_id = job_id;
                  content_object_id = object_id;
                  session_path = session_path;
                  state = state;
                }
                  ∷ [];
          },
        ))
    else none

-- `SELECT id FROM session_entry WHERE backup_job_id = ? AND session_path = ? LIMIT 1`
unfoldable pub find_entry : Text → Text → List EntryRow → Option ℕ
find_entry job_id session_path [] = none
find_entry job_id session_path (e ∷ es) =
    if text_eq e.backup_job_id job_id && text_eq e.session_path session_path
    then some e.row_id
    else find_entry job_id session_path es

unfoldable pub update_entry : ℕ → (EntryRow → EntryRow) → List EntryRow → List EntryRow
update_entry i change [] = []
update_entry i change (e ∷ es) = (if e.row_id == i then change e else e) ∷ update_entry i change es

unfoldable pub finalize_session_entry : Text → ℕ → Text → Manifest → Option (ℕ × Manifest)
unfolding find_entry update_entry insert_session_entry
finalize_session_entry job_id object_id session_path m =
    elim (find_entry job_id session_path m.entries) [
      | some i ↦
          if has_object object_id m.objects
          then some (
            i,
            record m {
              entries =
                  update_entry i
                    (λ e. record e { state = entry_verified; content_object_id = object_id })
                    m.entries;
            },
          )
          else none
      | none ↦ insert_session_entry job_id object_id session_path entry_verified m
    ]

pub record PendingObject : Type 0 where
  pub object_id : ℕ
  pub content_identity_id : ℕ
  pub identity : ContentIdentity
  pub temp_path : Option Text
  pub final_path : Option Text

-- The rows of the join for one object, in the order of the identities.
unfoldable pub pending_rows : ObjectRow → List IdentityRow → List PendingObject
pending_rows o [] = []
pending_rows o (r ∷ rs) =
    let later = pending_rows o rs in
    if r.row_id == o.content_identity_id
    then record {
      object_id = o.row_id;
      content_identity_id = o.content_identity_id;
      identity = r.identity;
      temp_path = o.pending_temp_path;
      final_path = o.pending_final_path;
    }
      ∷ later
    else later

unfoldable pub pending_objects : List ObjectRow → List IdentityRow → List PendingObject
unfolding pending_rows
pending_objects [] ids = []
pending_objects (o ∷ os) ids =
    let later = pending_objects os ids in
    if is_verified o.status then later else pending_rows o ids ++ later

unfoldable pub list_pending_finalize : Manifest → List PendingObject
unfolding pending_objects
list_pending_finalize m = pending_objects m.objects m.identities

abbrev pub is_pending_entry : ℕ → EntryRow → Bool
is_pending_entry object_id e =
    e.content_object_id == object_id
    && (elim e.state [ entry_pending ↦ true | entry_verified ↦ false ])

unfoldable pub pending_session_entries : ℕ → Manifest → List EntryRow
pending_session_entries object_id m = filter_p (is_pending_entry object_id) m.entries

unfoldable pub finalize_session_entry_by_id : ℕ → Manifest → Manifest
unfolding update_entry
finalize_session_entry_by_id i m = record m {
  entries = update_entry i (λ e. record e { state = entry_verified }) m.entries;
}

-- The two statements of `discard_pending_object`; the second fails while an entry names the object.
unfoldable pub delete_pending_entries : ℕ → Manifest → Manifest
delete_pending_entries object_id m = record m {
  entries = filter_p (λ e. not (is_pending_entry object_id e)) m.entries;
}

unfoldable pub delete_object : ℕ → Manifest → Option Manifest
delete_object object_id m =
    if count_p (λ e. e.content_object_id == object_id) m.entries == 0
    then some (record m { objects = filter_p (λ o. not (o.row_id == object_id)) m.objects })
    else none

-- `COUNT(*)` and `SUM(size_bytes)` over the verified objects, joined with their identities.
unfoldable pub verified_sizes : List ObjectRow → List IdentityRow → List ℕ
verified_sizes [] ids = []
verified_sizes (o ∷ os) ids =
    let later = verified_sizes os ids in
    if is_verified o.status
    then map (λ r. r.identity.size_bytes) (filter_p (λ r. r.row_id == o.content_identity_id) ids)
      ++ later
    else later

unfoldable pub destination_totals : Manifest → ℕ × ℕ
unfolding verified_sizes
destination_totals m =
    let sizes = verified_sizes m.objects m.identities in
    (length sizes, sum_p (λ _. true) (λ n. n) sizes)

-- The path of the first verified object of the identity.
unfoldable pub first_verified : ContentIdentity → List IdentityRow → List ObjectRow → Option Text
unfolding names_identity
first_verified c ids [] = none
first_verified c ids (o ∷ os) =
    if is_verified o.status && names_identity o.content_identity_id c ids
    then some o.object_path
    else first_verified c ids os

unfoldable pub verified_object_path : ContentIdentity → Manifest → Option Text
unfolding first_verified
verified_object_path c m = first_verified c m.identities m.objects
