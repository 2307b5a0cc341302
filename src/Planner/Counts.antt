-- ===== src/Planner/Counts.antt =====
-- The counters of a plan and its files.
use pi_mobile_photobackup.Prelude.{
  ℕ, ◌+◌, max, Text, ◌≡◌, sym, ◌∙◌, subst, inl, inr, Bool-cases, ◌↔◌, Bool, true, false, Option,
  none, some, List, [], ◌∷◌, arith, count_p, sum_p, max_p, count_p-snoc, sum_p-snoc, max_p-snoc,
  if◌then◌else◌,
}
use pi_mobile_photobackup.Prelude.Maybe.{>>=-eq-some, eq_of_some}
use pi_mobile_photobackup.Identity.{ContentIdentity, identity_in}
use pi_mobile_photobackup.Classification.{FileClassification, new}
use pi_mobile_photobackup.Planner.{
  FileAction, copy_verify_object_and_link, link_existing_verified_object, link_new_object_same_job,
  skip_unsupported, block_conflict, block_unreadable, ClassifiedFile, PlannedFile, Plan, Tally,
  empty_tally, append_planned, plan_new, plan_by, plan_file, plan_files, plan_of, build_plan,
  sort_files,
}

abbrev pub is_copy : FileAction → Bool
is_copy copy_verify_object_and_link = true
is_copy _ = false

abbrev pub is_existing : FileAction → Bool
is_existing link_existing_verified_object = true
is_existing _ = false

abbrev pub is_same_job : FileAction → Bool
is_same_job link_new_object_same_job = true
is_same_job _ = false

abbrev pub is_skip : FileAction → Bool
is_skip skip_unsupported = true
is_skip _ = false

abbrev pub is_conflict : FileAction → Bool
is_conflict block_conflict = true
is_conflict _ = false

abbrev pub is_unreadable : FileAction → Bool
is_unreadable block_unreadable = true
is_unreadable _ = false

-- How many files have an action of a kind.
abbrev pub having : (FileAction → Bool) → List PlannedFile → ℕ
having p = count_p (λ f. p f.action)

abbrev pub size_of : PlannedFile → ℕ
size_of f = f.planned_size_bytes

-- The counters are those of the files planned so far.
record Agrees (t : Tally) : Type 0 where
  copies : t.new_object_count ≡ having is_copy t.planned
  bytes : t.new_object_bytes ≡ sum_p (λ f. is_copy f.action) size_of t.planned
  largest : t.largest_new ≡ max_p (λ f. is_copy f.action) size_of t.planned
  existing : t.already ≡ having is_existing t.planned
  same_job : t.intra_dupes ≡ having is_same_job t.planned
  conflicts : t.conflicts ≡ having is_conflict t.planned
  unreadables : t.unreadable_files ≡ having is_unreadable t.planned
  skipped : t.unsupported_files ≡ having is_skip t.planned

module _ (root : Text) (item : ClassifiedFile) (action : FileAction) (t : Tally) where
  having-append_planned :
      (p : FileAction → Bool)
      → having p (append_planned root item action t).planned
        ≡ having p t.planned + (if p action then 1 else 0)
  unfolding append_planned
  having-append_planned p = count_p-snoc _ size_of _ t.planned

  bytes-append_planned :
      sum_p (λ f. is_copy f.action) size_of (append_planned root item action t).planned
      ≡ sum_p (λ f. is_copy f.action) size_of t.planned
        + (if is_copy action then item.size_bytes else 0)
  unfolding append_planned
  bytes-append_planned = sum_p-snoc _ size_of _ t.planned

  largest-append_planned :
      max_p (λ f. is_copy f.action) size_of (append_planned root item action t).planned
      ≡ max
          (max_p (λ f. is_copy f.action) size_of t.planned)
          (if is_copy action then item.size_bytes else 0)
  unfolding append_planned
  largest-append_planned = max_p-snoc _ size_of _ t.planned

-- The counters already count one more file, of the given action.
record Ahead (action : FileAction) (item : ClassifiedFile) (t : Tally) : Type 0 where
  copies : t.new_object_count ≡ having is_copy t.planned + (if is_copy action then 1 else 0)
  bytes :
      t.new_object_bytes
      ≡ sum_p (λ f. is_copy f.action) size_of t.planned
        + (if is_copy action then item.size_bytes else 0)
  largest :
      t.largest_new
      ≡ max
          (max_p (λ f. is_copy f.action) size_of t.planned)
          (if is_copy action then item.size_bytes else 0)
  existing : t.already ≡ having is_existing t.planned + (if is_existing action then 1 else 0)
  same_job : t.intra_dupes ≡ having is_same_job t.planned + (if is_same_job action then 1 else 0)
  conflicts : t.conflicts ≡ having is_conflict t.planned + (if is_conflict action then 1 else 0)
  unreadables :
      t.unreadable_files ≡ having is_unreadable t.planned + (if is_unreadable action then 1 else 0)
  skipped : t.unsupported_files ≡ having is_skip t.planned + (if is_skip action then 1 else 0)

append_planned-Agrees :
    (root : Text) (item : ClassifiedFile) (action : FileAction) (t : Tally)
    → Ahead action item t
    → Agrees (append_planned root item action t)
unfolding append_planned
append_planned-Agrees root item action t h = record {
  copies = h.copies ∙ sym (having-append_planned root item action t is_copy);
  bytes = h.bytes ∙ sym (bytes-append_planned root item action t);
  largest = h.largest ∙ sym (largest-append_planned root item action t);
  existing = h.existing ∙ sym (having-append_planned root item action t is_existing);
  same_job = h.same_job ∙ sym (having-append_planned root item action t is_same_job);
  conflicts = h.conflicts ∙ sym (having-append_planned root item action t is_conflict);
  unreadables = h.unreadables ∙ sym (having-append_planned root item action t is_unreadable);
  skipped = h.skipped ∙ sym (having-append_planned root item action t is_skip);
}

plan_new-Agrees :
    (root : Text) (item : ClassifiedFile) (identity : Option ContentIdentity) (t : Tally)
    {t' : Tally}
    → Agrees t
    → plan_new root item identity t ≡ some t'
    → Agrees t'
unfolding plan_new
plan_new-Agrees root item none t a h = cc
plan_new-Agrees root item (some i) t a h = elim (Bool-cases (identity_in i t.seen_new)) [
  | inl e ↦
      subst Agrees (eq_of_some (rw e at h)) (append_planned-Agrees root item _ _ (omega arith))
  | inr e ↦
      subst Agrees (eq_of_some (rw e at h)) (append_planned-Agrees root item _ _ (omega arith))
]

plan_by-Agrees :
    (c : FileClassification) (root : Text) (item : ClassifiedFile) (t : Tally) {t' : Tally}
    → Agrees t
    → plan_by c root item t ≡ some t'
    → Agrees t'
unfolding plan_by
plan_by-Agrees new root item t a h = plan_new-Agrees root item item.identity t a h
plan_by-Agrees _ root item t a h =
    subst Agrees (eq_of_some h) (append_planned-Agrees root item _ _ (omega arith))

plan_files-Agrees :
    (root : Text) (items : List ClassifiedFile) (t : Tally) {t' : Tally}
    → Agrees t
    → plan_files root items t ≡ some t'
    → Agrees t'
unfolding plan_files plan_file
plan_files-Agrees root [] t a h = subst Agrees (eq_of_some h) a
plan_files-Agrees root (item ∷ items) t a h =
    let (u, e, rest) = >>=-eq-some (plan_by item.classification root item t) _ h in
    plan_files-Agrees root items u (plan_by-Agrees item.classification root item t a e) rest

-- What a plan's counters say of its files.
pub record Counted (plan : Plan) : Type 0 where
  pub copied : plan.new_object_count ≡ having is_copy plan.files
  pub bytes : plan.new_object_bytes ≡ sum_p (λ f. is_copy f.action) size_of plan.files
  pub largest : plan.largest_new_object_bytes ≡ max_p (λ f. is_copy f.action) size_of plan.files
  pub existing : plan.already_backed_up_count ≡ having is_existing plan.files
  pub same_job : plan.intra_job_duplicate_count ≡ having is_same_job plan.files
  pub conflicts : plan.conflict_count ≡ having is_conflict plan.files
  pub unreadables : plan.unreadable_count ≡ having is_unreadable plan.files
  pub skipped : plan.unsupported_count ≡ having is_skip plan.files
  pub blocked :
      (plan.blocked ≡ false)
      ↔ ((having is_conflict plan.files ≡ 0) × (having is_unreadable plan.files ≡ 0))

plan_of-Counted : (t : Tally) → Agrees t → Counted (plan_of t)
unfolding plan_of
plan_of-Counted t a = record {
  copied = a.copies;
  bytes = a.bytes;
  largest = a.largest;
  existing = a.existing;
  same_job = a.same_job;
  conflicts = a.conflicts;
  unreadables = a.unreadables;
  skipped = a.skipped;
  blocked = ground arith;
}

-- The counters of a plan are what its files say: how many are copied, with their bytes and the
-- largest of them; how many are linked to an object that was there, or to one that this job
-- copies; how many are skipped, in conflict or unreadable. It is unblocked exactly when no file is
-- in conflict and none unreadable.
pub build_plan-Counted :
    (items : List ClassifiedFile) (root : Text) (plan : Plan)
    → build_plan items root ≡ some plan
    → Counted plan
unfolding build_plan
build_plan-Counted items root plan h =
    let (t, e, done) = >>=-eq-some (plan_files root (sort_files items) empty_tally) _ h in
    subst Counted (eq_of_some done)
      (plan_of-Counted t (plan_files-Agrees root (sort_files items) empty_tally (omega arith) e))
