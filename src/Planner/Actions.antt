-- ===== src/Planner/Actions.antt =====
-- planner.py: the action of each file of a plan, told from the classified files before it.
use mathlib.Core.List.{append-nil, append_assoc}
use pi_mobile_photobackup.Prelude.{
  Text, ◌≡◌, refl, sym, ap, ◌∙◌, subst, arith, true, false, inl, inr, Option, none, some, List, [],
  ◌∷◌, ◌++◌, ◌||◌, Bool-cases, if◌then◌else◌,
}
use pi_mobile_photobackup.Prelude.Maybe.{>>=-eq-some, eq_of_some}
use pi_mobile_photobackup.Identity.{ContentIdentity, identity_eq, identity_eq_iff, identity_in}
use pi_mobile_photobackup.Classification.{
  FileClassification, new, already_backed_up, potential_conflict, unsupported, unreadable,
}
use pi_mobile_photobackup.Planner.{
  FileAction, copy_verify_object_and_link, link_existing_verified_object, link_new_object_same_job,
  skip_unsupported, block_conflict, block_unreadable, ClassifiedFile, PlannedFile, Plan, Tally,
  empty_tally, append_planned, plan_new, plan_by, plan_file, plan_files, plan_of, build_plan,
  sort_files, session_path_of,
}

-- The action for a file, where `earlier` are the contents of the NEW files before it.
abbrev pub action_for :
    List ContentIdentity → FileClassification → Option ContentIdentity → FileAction
action_for earlier new none = copy_verify_object_and_link
action_for earlier new (some c) =
    if identity_in c earlier then link_new_object_same_job else copy_verify_object_and_link
action_for earlier already_backed_up _ = link_existing_verified_object
action_for earlier potential_conflict _ = block_conflict
action_for earlier unsupported _ = skip_unsupported
action_for earlier unreadable _ = block_unreadable

-- The contents of the NEW files, one more file taken in.
abbrev pub new_contents :
    FileClassification → Option ContentIdentity → List ContentIdentity → List ContentIdentity
new_contents new (some c) earlier = c ∷ earlier
new_contents _ _ earlier = earlier

abbrev pub planned_for : Text → ClassifiedFile → FileAction → PlannedFile
planned_for root item action = record {
  relative_path = item.relative_path;
  session_path = session_path_of root item.relative_path;
  identity = item.identity;
  classification = item.classification;
  action = action;
  planned_size_bytes = item.size_bytes;
}

-- The planned files of the items in turn.
abbrev pub files_for : Text → List ContentIdentity → List ClassifiedFile → List PlannedFile
files_for root earlier [] = []
files_for root earlier (item ∷ items) =
    planned_for root item (action_for earlier item.classification item.identity)
    ∷ files_for root (new_contents item.classification item.identity earlier) items

abbrev IsSame : List ContentIdentity → List ContentIdentity → Type 0
IsSame xs ys = (c : ContentIdentity) → identity_in c xs ≡ identity_in c ys

IsSame-seen :
    (i : ContentIdentity) (xs ys : List ContentIdentity)
    → identity_in i xs ≡ true
    → IsSame xs ys
    → IsSame xs (i ∷ ys)
unfolding identity_in
IsSame-seen i xs ys seen same c = elim (Bool-cases (identity_eq c i)) [
  | inl e ↦
      let here : identity_in c xs ≡ true =
        subst (λ d. identity_in d xs ≡ true) (sym ((identity_eq_iff c i).0 e)) seen in
      ground (arith, e, here)
  | inr e ↦ ground (arith, e, same c)
]

-- One round has planned the item with its action.
record Round (root : Text) (item : ClassifiedFile) (c : FileClassification)
    (identity : Option ContentIdentity) (earlier : List ContentIdentity) (t u : Tally)
    : Type 0 where
  planned : u.planned ≡ t.planned ++ planned_for root item (action_for earlier c identity) ∷ []
  same : IsSame u.seen_new (new_contents c identity earlier)

plan_new-Round :
    (root : Text) (item : ClassifiedFile) (identity : Option ContentIdentity)
    (earlier : List ContentIdentity) (t : Tally) {u : Tally}
    → IsSame t.seen_new earlier
    → plan_new root item identity t ≡ some u
    → Round root item new identity earlier t u
unfolding plan_new append_planned identity_in
plan_new-Round root item none earlier t same h = cc
plan_new-Round root item (some i) earlier t same h = elim (Bool-cases (identity_in i t.seen_new)) [
  | inl e ↦
      let before : identity_in i earlier ≡ true = sym (same i) ∙ e in
      subst (Round root item new (some i) earlier t) (eq_of_some (rw e at h))
        (record { planned = rw before refl; same = IsSame-seen i t.seen_new earlier e same })
  | inr e ↦
      let before : identity_in i earlier ≡ false = sym (same i) ∙ e in
      subst (Round root item new (some i) earlier t) (eq_of_some (rw e at h))
        (record { planned = rw before refl; same = λ c. ap (λ b. identity_eq c i || b) (same c) })
]

plan_by-Round :
    (c : FileClassification) (root : Text) (item : ClassifiedFile) (earlier : List ContentIdentity)
    (t : Tally) {u : Tally}
    → IsSame t.seen_new earlier
    → plan_by c root item t ≡ some u
    → Round root item c item.identity earlier t u
unfolding plan_by append_planned
plan_by-Round new root item earlier t same h =
    plan_new-Round root item item.identity earlier t same h
plan_by-Round c root item earlier t same h =
    subst (Round root item c item.identity earlier t) (eq_of_some h)
      (record { planned = refl; same = same })

plan_files-files_for :
    (root : Text) (items : List ClassifiedFile) (earlier : List ContentIdentity) (t : Tally)
    {u : Tally}
    → IsSame t.seen_new earlier
    → plan_files root items t ≡ some u
    → u.planned ≡ t.planned ++ files_for root earlier items
unfolding plan_files plan_file
plan_files-files_for root [] earlier t same h =
    ap (λ x. x.planned) (sym (eq_of_some h)) ∙ sym (append-nil t.planned)
plan_files-files_for root (item ∷ items) earlier t same h =
    let (v, e, rest) = >>=-eq-some (plan_by item.classification root item t) _ h in
    let r = plan_by-Round item.classification root item earlier t same e in
    let later = new_contents item.classification item.identity earlier in
    let after = files_for root later items in
    plan_files-files_for root items later v r.same rest
    ∙ ap (λ l. l ++ after) r.planned
    ∙ append_assoc t.planned
        (planned_for root item (action_for earlier item.classification item.identity) ∷ []) after

pub build_plan-files_for :
    (items : List ClassifiedFile) (root : Text) (plan : Plan)
    → build_plan items root ≡ some plan
    → plan.files ≡ files_for root [] (sort_files items)
unfolding build_plan plan_of
build_plan-files_for items root plan h =
    let (t, e, done) = >>=-eq-some (plan_files root (sort_files items) empty_tally) _ h in
    ap (λ p. p.files) (sym (eq_of_some done))
    ∙ plan_files-files_for root (sort_files items) [] empty_tally (λ c. refl) e
