-- ===== src/Preflight/Total.antt =====
-- When a preflight of a scan with distinct paths returns.
use pi_mobile_photobackup.Prelude.{
  ◌≤◌, ◌≡◌, refl, ◌≢◌, Text, Bool, true, false, Option, none, some, List, [], ◌∷◌, arith, map, All,
  Bool-cases, inl, inr, text_eq_iff, text_le, if◌then◌else◌,
}
use pi_mobile_photobackup.Identity.{ContentIdentity, identity_in}
use pi_mobile_photobackup.Classification.{
  FileClassification, new, already_backed_up, potential_conflict, unsupported, unreadable,
  ClassificationInput, classify, classify-new,
}
use pi_mobile_photobackup.Capacity
use pi_mobile_photobackup.Capacity.{CapacityAssessment, assess_capacity}
use pi_mobile_photobackup.Capacity.Bounds.{assess_capacity_accepts}
use pi_mobile_photobackup.Planner.{
  ClassifiedFile, Plan, Tally, empty_tally, insert_file, sort_files, plan_new, plan_by, plan_file,
  plan_files, plan_of, build_plan,
}
use pi_mobile_photobackup.Preflight.{
  PreflightResult, done, DiskUsage, Margins, classification_of, look_up, size_of, to_classified,
  capacity_input, preflight_result, planned, assessed, run_preflight,
}

-- A file that is new has an identity.
abbrev CanPlan : ClassifiedFile → Type 0
CanPlan f = f.classification ≡ new → (c : ContentIdentity) × (f.identity ≡ some c)

insert_file-CanPlan :
    (x : ClassifiedFile) (xs : List ClassifiedFile)
    → CanPlan x
    → All CanPlan xs
    → All CanPlan (insert_file x xs)
unfolding insert_file
insert_file-CanPlan x [] h hs = (h, tt)
insert_file-CanPlan x (y ∷ ys) h hs = elim (Bool-cases (text_le x.relative_path y.relative_path)) [
  | inl e ↦ rw e (h, hs)
  | inr e ↦ rw e (hs.0, insert_file-CanPlan x ys h hs.1)
]

sort_files-CanPlan : (xs : List ClassifiedFile) → All CanPlan xs → All CanPlan (sort_files xs)
unfolding sort_files
sort_files-CanPlan [] h = tt
sort_files-CanPlan (x ∷ xs) h =
    insert_file-CanPlan x (sort_files xs) h.0 (sort_files-CanPlan xs h.1)

if_some : (b : Bool) (x y : Tally) → (t : Tally) × ((if b then some x else some y) ≡ some t)
if_some true x y = (x, refl)
if_some false x y = (y, refl)

module _ (root : Text) where
  plan_new_total :
      (item : ClassifiedFile) (o : Option ContentIdentity) (t : Tally)
      → (c : ContentIdentity) × (o ≡ some c)
      → (t' : Tally) × (plan_new root item o t ≡ some t')
  unfolding plan_new
  plan_new_total item none t (c, e) = absurd (cc e)
  plan_new_total item (some i) t h = if_some (identity_in i t.seen_new) _ _

  plan_by_total :
      (c : FileClassification) (item : ClassifiedFile) (t : Tally)
      → (c ≡ new → (i : ContentIdentity) × (item.identity ≡ some i))
      → (t' : Tally) × (plan_by c root item t ≡ some t')
  unfolding plan_by
  plan_by_total new item t h = plan_new_total item item.identity t (h refl)
  plan_by_total already_backed_up item t h = (_, refl)
  plan_by_total potential_conflict item t h = (_, refl)
  plan_by_total unsupported item t h = (_, refl)
  plan_by_total unreadable item t h = (_, refl)

  plan_files_total :
      (items : List ClassifiedFile) (t : Tally)
      → All CanPlan items
      → (t' : Tally) × (plan_files root items t ≡ some t')
  unfolding plan_files plan_file
  plan_files_total [] t h = (t, refl)
  plan_files_total (item ∷ items) t h =
      let (u, e) = plan_by_total item.classification item t h.0 in
      let (t', e') = plan_files_total items u h.1 in (t', rw e e')

  build_plan_total :
      (items : List ClassifiedFile)
      → All CanPlan items
      → (p : Plan) × (build_plan items root ≡ some p)
  unfolding build_plan
  build_plan_total items h =
      let (t, e) = plan_files_total (sort_files items) empty_tally (sort_files-CanPlan items h) in
      (plan_of t, rw e refl)

-- No two files of the scan have the same path.
abbrev pub Distinct : List ClassificationInput → Type 0
Distinct [] = Unit
Distinct (x ∷ xs) = All (λ y. y.relative_path ≢ x.relative_path) xs × Distinct xs

module _ (verified : ContentIdentity → Bool)
    (occupant : Option (Text → Option ContentIdentity)) where
  -- What becomes of one file.
  abbrev classified_of : ClassificationInput → ClassifiedFile
  classified_of item = record {
    relative_path = item.relative_path;
    identity = item.identity;
    size_bytes = size_of item.identity;
    classification = classify verified occupant item;
  }

  abbrev Finds : List (Text × FileClassification) → ClassificationInput → Type 0
  Finds classes x = look_up x.relative_path classes ≡ some (classify verified occupant x)

  look_up-none :
      (x : ClassificationInput) (xs : List ClassificationInput)
      → All (λ y. y.relative_path ≢ x.relative_path) xs
      → look_up x.relative_path (classification_of verified occupant xs) ≡ none
  unfolding look_up classification_of
  look_up-none x [] h = refl
  look_up-none x (y ∷ ys) h =
      ground (arith, look_up-none x ys h.1, h.0, text_eq_iff y.relative_path x.relative_path)

  Finds-cons :
      (x : ClassificationInput) (classes : List (Text × FileClassification))
      (c : FileClassification) (p : Text)
      → Finds classes x
      → Finds ((p, c) ∷ classes) x
  unfolding look_up
  Finds-cons x classes c p h = rw h refl

  All-Finds-cons :
      (xs : List ClassificationInput) (classes : List (Text × FileClassification))
      (c : FileClassification) (p : Text)
      → All (Finds classes) xs
      → All (Finds ((p, c) ∷ classes)) xs
  All-Finds-cons [] classes c p h = tt
  All-Finds-cons (x ∷ xs) classes c p h =
      (Finds-cons x classes c p h.0, All-Finds-cons xs classes c p h.1)

  Finds-All :
      (xs : List ClassificationInput)
      → Distinct xs
      → All (Finds (classification_of verified occupant xs)) xs
  unfolding classification_of look_up
  Finds-All [] h = tt
  Finds-All (x ∷ xs) h = (
    ground (arith, look_up-none x xs h.0, text_eq_iff x.relative_path x.relative_path),
    All-Finds-cons xs (classification_of verified occupant xs) (classify verified occupant x)
        x.relative_path (Finds-All xs h.1),
  )

  to_classified_lem :
      (xs : List ClassificationInput) (classes : List (Text × FileClassification))
      → All (Finds classes) xs
      → to_classified xs classes ≡ some (map classified_of xs)
  unfolding to_classified
  to_classified_lem [] classes h = refl
  to_classified_lem (x ∷ xs) classes h =
      rw (to_classified, h.0, to_classified_lem xs classes h.1) refl

  CanPlan-map : (xs : List ClassificationInput) → All CanPlan (map classified_of xs)
  CanPlan-map [] = tt
  CanPlan-map (x ∷ xs) =
      (λ e. let (i, at, _, _) = classify-new verified occupant x e in (i, at), CanPlan-map xs)

  module _ (usage : DiskUsage) (margins : Margins) (session_root : Text) where
    capacity_total :
        (p : Plan)
        → margins.safety_margin_percent ≤ 100
        → (a : CapacityAssessment) × (assess_capacity (capacity_input p usage margins)
            ≡ Capacity.ok a)
    unfolding capacity_input
    capacity_total p h = (assess_capacity_accepts (capacity_input p usage margins)).1 (record {
      capacity = ground arith;
      available = ground arith;
      new_files = ground arith;
      largest = ground arith;
      percent_low = ground arith;
      percent_high = ground arith;
      minimum = ground arith;
      metadata = ground arith;
      floor = ground arith;
    })

    -- If no two files of the scan have the same path and the safety margin is at most 100 percent,
    -- a preflight of them returns a result: it raises neither an error of the planner's assertion
    -- nor one of a missing key or of a value out of range.
    pub run_preflight-total :
        (inputs : List ClassificationInput)
        → Distinct inputs
        → margins.safety_margin_percent ≤ 100
        → (r : PreflightResult) × (run_preflight verified occupant usage margins session_root inputs
            ≡ done r)
    unfolding run_preflight planned assessed
    run_preflight-total inputs distinct percent =
        let (p, e) =
          build_plan_total session_root (map classified_of inputs) (CanPlan-map inputs) in
        let (a, k) = capacity_total p percent in
        (
          preflight_result p a,
          rw
              (
                run_preflight,
                to_classified_lem inputs (classification_of verified occupant inputs)
                    (Finds-All inputs distinct),
              )
              (rw e (rw k refl)),
        )
