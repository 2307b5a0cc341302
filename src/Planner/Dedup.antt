-- ===== src/Planner/Dedup.antt =====
-- Which file of a job copies a content, and which ones link to that copy.
use pi_mobile_photobackup.Prelude.{
  Text, ◌≡◌, refl, sym, ap, ◌∙◌, subst, true, false, inl, inr, Option, none, some, List, [], ◌∷◌,
  ◌++◌, Bool-cases,
}
use pi_mobile_photobackup.Prelude.Maybe.{>>=-eq-some, eq_of_some}
use pi_mobile_photobackup.Identity.{ContentIdentity, identity_in}
use pi_mobile_photobackup.Classification.{FileClassification, new}
use pi_mobile_photobackup.Planner.Actions.{files_for, build_plan-files_for}
use pi_mobile_photobackup.Planner.{
  FileAction, copy_verify_object_and_link, link_new_object_same_job, ClassifiedFile, PlannedFile,
  Plan, Tally, empty_tally, append_planned, plan_new, plan_by, plan_file, plan_files, plan_of,
  build_plan, sort_files,
}

-- The contents that the files of a plan copy, given those copied before.
abbrev pub copied :
    List ContentIdentity → FileAction → Option ContentIdentity → List ContentIdentity
copied before copy_verify_object_and_link (some i) = i ∷ before
copied before _ _ = before

abbrev pub copied_by : List ContentIdentity → List PlannedFile → List ContentIdentity
copied_by before [] = before
copied_by before (f ∷ fs) = copied_by (copied before f.action f.identity) fs

-- A file that is to be copied has an identity that no earlier file copies; a file that is to be
-- linked to an object of the same job has one that an earlier file copies.
abbrev pub Justified : List ContentIdentity → FileAction → Option ContentIdentity → Type 0
Justified before copy_verify_object_and_link i =
    (c : ContentIdentity) × (i ≡ some c) × (identity_in c before ≡ false)
Justified before link_new_object_same_job i =
    (c : ContentIdentity) × (i ≡ some c) × (identity_in c before ≡ true)
Justified before _ i = Unit

abbrev pub CopiesOnce : List ContentIdentity → List PlannedFile → Type 0
CopiesOnce before [] = Unit
CopiesOnce before (f ∷ fs) =
    Justified before f.action f.identity × CopiesOnce (copied before f.action f.identity) fs

copied_by-snoc :
    (before : List ContentIdentity) (fs : List PlannedFile) (f : PlannedFile)
    → copied_by before (fs ++ f ∷ []) ≡ copied (copied_by before fs) f.action f.identity
copied_by-snoc before [] f = refl
copied_by-snoc before (g ∷ fs) f = copied_by-snoc (copied before g.action g.identity) fs f

CopiesOnce-snoc :
    (before : List ContentIdentity) (fs : List PlannedFile) (f : PlannedFile)
    → CopiesOnce before fs
    → Justified (copied_by before fs) f.action f.identity
    → CopiesOnce before (fs ++ f ∷ [])
CopiesOnce-snoc before [] f h j = (j, tt)
CopiesOnce-snoc before (g ∷ fs) f h j =
    (h.0, CopiesOnce-snoc (copied before g.action g.identity) fs f h.1 j)

record Tracks (t : Tally) : Type 0 where
  seen : t.seen_new ≡ copied_by [] t.planned
  once : CopiesOnce [] t.planned

append_planned-Tracks :
    (root : Text) (item : ClassifiedFile) (action : FileAction) (t : Tally)
    → CopiesOnce [] t.planned
    → t.seen_new ≡ copied (copied_by [] t.planned) action item.identity
    → Justified (copied_by [] t.planned) action item.identity
    → Tracks (append_planned root item action t)
unfolding append_planned
append_planned-Tracks root item action t once seen j = record {
  seen = seen ∙ sym (copied_by-snoc [] t.planned _);
  once = CopiesOnce-snoc [] t.planned _ once j;
}

plan_new-Tracks :
    (root : Text) (item : ClassifiedFile) (identity : Option ContentIdentity) (t : Tally)
    {t' : Tally}
    → item.identity ≡ identity
    → Tracks t
    → plan_new root item identity t ≡ some t'
    → Tracks t'
unfolding plan_new
plan_new-Tracks root item none t same a h = cc
plan_new-Tracks root item (some i) t same a h = elim (Bool-cases (identity_in i t.seen_new)) [
  | inl e ↦
      subst Tracks (eq_of_some (rw e at h))
        (append_planned-Tracks root item _ _ a.once a.seen (i, same, rw (← a.seen) e))
  | inr e ↦ subst Tracks (eq_of_some (rw e at h)) (
      append_planned-Tracks root item _ _ a.once (rw same (ap (◌∷◌ i) a.seen))
        (i, same, rw (← a.seen) e))
]

plan_by-Tracks :
    (c : FileClassification) (root : Text) (item : ClassifiedFile) (t : Tally) {t' : Tally}
    → Tracks t
    → plan_by c root item t ≡ some t'
    → Tracks t'
unfolding plan_by
plan_by-Tracks new root item t a h = plan_new-Tracks root item item.identity t refl a h
plan_by-Tracks _ root item t a h =
    subst Tracks (eq_of_some h) (append_planned-Tracks root item _ _ a.once a.seen tt)

plan_files-Tracks :
    (root : Text) (items : List ClassifiedFile) (t : Tally) {t' : Tally}
    → Tracks t
    → plan_files root items t ≡ some t'
    → Tracks t'
unfolding plan_files plan_file
plan_files-Tracks root [] t a h = subst Tracks (eq_of_some h) a
plan_files-Tracks root (item ∷ items) t a h =
    let (u, e, rest) = >>=-eq-some (plan_by item.classification root item t) _ h in
    plan_files-Tracks root items u (plan_by-Tracks item.classification root item t a e) rest

planned_once :
    (items : List ClassifiedFile) (root : Text) (plan : Plan)
    → build_plan items root ≡ some plan
    → CopiesOnce [] plan.files
unfolding build_plan plan_of
planned_once items root plan h =
    let (t, e, done) = >>=-eq-some (plan_files root (sort_files items) empty_tally) _ h in
    subst (λ p. CopiesOnce [] p.files) (eq_of_some done)
      (plan_files-Tracks root (sort_files items) empty_tally (record { seen = refl; once = tt })
        e).once

-- The files of a plan are those of the classified files in the order of their paths, each with an
-- action that its class and the files before it determine: a NEW file is linked to an object of
-- the same job if a NEW file before it has the same content, and copied if none has; the files of
-- the other classes are linked to the verified object, skipped or blocked by their class. So each
-- content is copied by one file at most, and a file that is linked to an object of the same job
-- comes after the file that copies this content.
pub build_plan-CopiesOnce :
    (items : List ClassifiedFile) (root : Text) (plan : Plan)
    → build_plan items root ≡ some plan
    → (plan.files ≡ files_for root [] (sort_files items)) × CopiesOnce [] plan.files
build_plan-CopiesOnce items root plan h =
    (build_plan-files_for items root plan h, planned_once items root plan h)
