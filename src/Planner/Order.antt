-- ===== src/Planner/Order.antt =====
-- The order of the files of a plan.
use mathlib.Core.List.{Perm, map-append, append-nil, append_assoc}
use mathlib.Core.List.Perm
use pi_mobile_photobackup.Prelude.{
  Text, ◌≡◌, ◌∙◌, true, inl, inr, Option, none, some, List, [], ◌∷◌, ◌++◌, map, text_le,
  text_le_total, text_le_trans, Bool-cases, All,
}
use pi_mobile_photobackup.Prelude.Maybe.{>>=-eq-some, eq_of_some}
use pi_mobile_photobackup.Classification.{FileClassification, new}
use pi_mobile_photobackup.Identity.{ContentIdentity, identity_in}
use pi_mobile_photobackup.Planner.{
  ClassifiedFile, PlannedFile, Plan, Tally, empty_tally, append_planned, plan_new, plan_file,
  FileAction, plan_by, plan_files, plan_of, build_plan, sort_files, insert_file,
}

-- Every path is at most each later one.
abbrev pub IsSorted : List Text → Type 0
IsSorted [] = Unit
IsSorted (x ∷ xs) = All (λ y. text_le x y ≡ true) xs × IsSorted xs

abbrev pub path_of : ClassifiedFile → Text
path_of f = f.relative_path

abbrev pub planned_path : PlannedFile → Text
planned_path f = f.relative_path

All-insert_file :
    (P : Text → Type 0) (x : ClassifiedFile) (ys : List ClassifiedFile)
    → P x.relative_path
    → All P (map path_of ys)
    → All P (map path_of (insert_file x ys))
unfolding insert_file
All-insert_file P x [] h k = (h, tt)
All-insert_file P x (y ∷ ys) h k = elim (Bool-cases (text_le x.relative_path y.relative_path)) [
  | inl e ↦ rw e (h, k)
  | inr e ↦ rw e (k.0, All-insert_file P x ys h k.1)
]

All-weaken :
    (x y : Text) (zs : List Text)
    → text_le x y ≡ true
    → All (λ z. text_le y z ≡ true) zs
    → All (λ z. text_le x z ≡ true) zs
All-weaken x y [] h k = tt
All-weaken x y (z ∷ zs) h k = (text_le_trans x y z h k.0, All-weaken x y zs h k.1)

insert_file-IsSorted :
    (x : ClassifiedFile) (ys : List ClassifiedFile)
    → IsSorted (map path_of ys)
    → IsSorted (map path_of (insert_file x ys))
unfolding insert_file
insert_file-IsSorted x [] s = (tt, tt)
insert_file-IsSorted x (y ∷ ys) s = elim (Bool-cases (text_le x.relative_path y.relative_path)) [
  | inl e ↦ rw e ((e, All-weaken x.relative_path y.relative_path (map path_of ys) e s.0), s)
  | inr e ↦ rw e (
    All-insert_file (λ z. text_le y.relative_path z ≡ true) x ys
        (text_le_total x.relative_path y.relative_path e) s.0,
    insert_file-IsSorted x ys s.1,
  )
]

pub sort_files-IsSorted : (xs : List ClassifiedFile) → IsSorted (map path_of (sort_files xs))
unfolding sort_files
sort_files-IsSorted [] = tt
sort_files-IsSorted (x ∷ xs) = insert_file-IsSorted x (sort_files xs) (sort_files-IsSorted xs)

insert_file-perm :
    (x : ClassifiedFile) (ys : List ClassifiedFile) → Perm (insert_file x ys) (x ∷ ys)
unfolding insert_file
insert_file-perm x [] = Perm.refl (x ∷ [])
insert_file-perm x (y ∷ ys) = elim (Bool-cases (text_le x.relative_path y.relative_path)) [
  | inl e ↦ rw e (Perm.refl (x ∷ y ∷ ys))
  | inr e ↦ rw e (Perm.trans (Perm.cons y (insert_file-perm x ys)) (Perm.swap x y ys))
]

pub sort_files-perm : (xs : List ClassifiedFile) → Perm (sort_files xs) xs
unfolding sort_files
sort_files-perm [] = Perm.refl []
sort_files-perm (x ∷ xs) =
    Perm.trans (insert_file-perm x (sort_files xs)) (Perm.cons x (sort_files-perm xs))

paths-append_planned :
    (root : Text) (item : ClassifiedFile) (action : FileAction) (t : Tally)
    → map planned_path (append_planned root item action t).planned
      ≡ map planned_path t.planned ++ item.relative_path ∷ []
unfolding append_planned
paths-append_planned root item action t = map-append _ t.planned _

plan_new-paths :
    (root : Text) (item : ClassifiedFile) (identity : Option ContentIdentity) (t t' : Tally)
    → plan_new root item identity t ≡ some t'
    → map planned_path t'.planned ≡ map planned_path t.planned ++ item.relative_path ∷ []
unfolding plan_new
plan_new-paths root item none t t' h = cc
plan_new-paths root item (some i) t t' h = elim (Bool-cases (identity_in i t.seen_new)) [
  | inl e ↦ rw (← eq_of_some (rw e at h)) (paths-append_planned root item _ _)
  | inr e ↦ rw (← eq_of_some (rw e at h)) (paths-append_planned root item _ _)
]

plan_by-paths :
    (c : FileClassification) (root : Text) (item : ClassifiedFile) (t t' : Tally)
    → plan_by c root item t ≡ some t'
    → map planned_path t'.planned ≡ map planned_path t.planned ++ item.relative_path ∷ []
unfolding plan_by
plan_by-paths new root item t t' h = plan_new-paths root item item.identity t t' h
plan_by-paths _ root item t t' h = rw (← eq_of_some h) (paths-append_planned root item _ _)

plan_files-paths :
    (root : Text) (items : List ClassifiedFile) (t t' : Tally)
    → plan_files root items t ≡ some t'
    → map planned_path t'.planned ≡ map planned_path t.planned ++ map path_of items
unfolding plan_files plan_file
plan_files-paths root [] t t' h = rw (← eq_of_some h, append-nil)
plan_files-paths root (item ∷ items) t t' h =
    let (u, e, rest) = >>=-eq-some (plan_by item.classification root item t) _ h in
    plan_files-paths root items u t' rest
    ∙ rw (plan_by-paths item.classification root item t u e, append_assoc)

-- A plan has exactly one entry for each classified file, whatever its action, in the order of the
-- paths: its paths are sorted, and a rearrangement of those that were given.
pub build_plan_order :
    (items : List ClassifiedFile) (root : Text) (plan : Plan)
    → build_plan items root ≡ some plan
    → IsSorted (map planned_path plan.files)
      × Perm (map planned_path plan.files) (map path_of items)
unfolding build_plan plan_of
build_plan_order items root plan h =
    let (t, e, done) = >>=-eq-some (plan_files root (sort_files items) empty_tally) _ h in
    let paths = plan_files-paths root (sort_files items) empty_tally t e in
    rw (← eq_of_some done)
      (rw paths (sort_files-IsSorted items, Perm.map path_of (sort_files-perm items)))
