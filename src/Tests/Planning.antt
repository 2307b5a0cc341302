-- ===== src/Tests/Planning.antt =====
-- Examples for the capacity assessment, the planner and the preflight.
use mathlib.Core.List.{Perm}
use pi_mobile_photobackup.Identity
use pi_mobile_photobackup.Classification
use pi_mobile_photobackup.Planner
use pi_mobile_photobackup.Capacity
use pi_mobile_photobackup.Preflight
use pi_mobile_photobackup.Prelude.{
  ℕ, ◌≡◌, refl, ◌↔◌, Text, codes, text_eq, text_eq_iff, text_le, Bool, true, false, Option, none,
  some, List, [], ◌∷◌, arith, map,
}
use pi_mobile_photobackup.Prelude.Int
use pi_mobile_photobackup.Prelude.Int.{ℤ, pos, ◌≤ℤ◌, ◌+ℤ◌, ◌-ℤ◌}
use pi_mobile_photobackup.Identity.{ContentIdentity}
use pi_mobile_photobackup.Classification.{
  FileClassification, new, unsupported, ClassificationInput, classify, occupied_by_other,
  classify-new,
}
use pi_mobile_photobackup.Capacity.{
  Checked, CapacityAssessment, CapacityInput, assess_capacity, safety_margin_bytes,
}
use pi_mobile_photobackup.Capacity.Bounds.{InRange, assess_capacity_sound, assess_capacity_accepts}
use pi_mobile_photobackup.Planner.{sort_files, ClassifiedFile, Plan, build_plan}
use pi_mobile_photobackup.Planner.Counts.{Counted, build_plan-Counted}
use pi_mobile_photobackup.Planner.Actions.{files_for}
use pi_mobile_photobackup.Planner.Dedup.{CopiesOnce, build_plan-CopiesOnce}
use pi_mobile_photobackup.Planner.Order.{IsSorted, planned_path, path_of, build_plan_order}
use pi_mobile_photobackup.Preflight.{
  PreflightResult, Preflight, done, DiskUsage, Margins, run_preflight,
}
use pi_mobile_photobackup.Preflight.Outcome.{Assessed, run_preflight-Assessed}
use pi_mobile_photobackup.Preflight.Total.{Distinct, run_preflight-total}
use pi_mobile_photobackup.Tests.{photo_identity}

abbrev space : CapacityInput
space = record {
  destination_capacity_bytes = pos 1000;
  available_bytes = pos 500;
  new_file_bytes = pos 100;
  largest_new_file_bytes = pos 60;
  safety_margin_percent = pos 5;
  safety_margin_min_bytes = pos 10;
  metadata_estimate_bytes = pos 1;
  reserve_floor_bytes = pos 20;
}

abbrev assessment : CapacityAssessment
assessment = record {
  destination_capacity_bytes = pos 1000;
  available_bytes = pos 500;
  new_file_bytes = pos 100;
  operational_reserve = pos 61;
  safety_margin = pos 50;
  required_bytes = pos 211;
  shortfall_bytes = pos 0;
  estimated_available_after_bytes = pos 400;
  sufficient = true;
}

assessed_ok : assess_capacity space ≡ Capacity.ok assessment
unfolding Capacity.safety_margin_bytes Capacity.operational_reserve_bytes Capacity.assessment_of
    Capacity.assess_capacity Int.◌+ℤ◌ Int.◌-ℤ◌ Int.◌*ℤ◌ Int.◌//ℤ◌ Int.max_ℤ
assessed_ok = refl

assess_capacity_sound_example :
    (true ≡ true → (pos 61 +ℤ pos 50 ≤ℤ pos 400) × (pos 0 ≡ pos 0))
    × (true ≡ false → (pos 1 ≤ℤ pos 0) × (pos 500 +ℤ pos 0 ≡ pos 211))
assess_capacity_sound_example = assess_capacity_sound space assessment assessed_ok

assess_capacity_accepts_example :
    ((a : CapacityAssessment) × (assess_capacity space ≡ Capacity.ok a)) ↔ InRange space
assess_capacity_accepts_example = assess_capacity_accepts space

abbrev photo_input : Text → ClassificationInput
photo_input path = record {
  relative_path = path;
  identity = some photo_identity;
  is_unreadable = false;
  is_unsupported = false;
}

abbrev nothing_verified : ContentIdentity → Bool
nothing_verified c = false

photo_new : classify nothing_verified none (photo_input (codes "a")) ≡ new
unfolding classify
photo_new = refl

-- Two files with one content, and a symbolic link.
abbrev file : Text → Option ContentIdentity → ℕ → FileClassification → ClassifiedFile
file path identity size c = record {
  relative_path = path;
  identity = identity;
  size_bytes = size;
  classification = c;
}

abbrev files : List ClassifiedFile
files =
    file (codes "b") (some photo_identity) 3 new
    ∷ file (codes "a") (some photo_identity) 3 new
    ∷ file (codes "l") none 0 unsupported
    ∷ []

abbrev empty_plan : Plan
empty_plan = record {
  files = [];
  new_object_bytes = 0;
  new_object_count = 0;
  already_backed_up_count = 0;
  intra_job_duplicate_count = 0;
  conflict_count = 0;
  unreadable_count = 0;
  unsupported_count = 0;
  largest_new_object_bytes = 0;
  blocked = false;
  block_reasons = [];
}

abbrev plan_or : Option Plan → Plan
plan_or none = empty_plan
plan_or (some plan) = plan

abbrev plan : Plan
plan = plan_or (build_plan files (codes "/b"))

planned_ok : build_plan files (codes "/b") ≡ some plan
unfolding Identity.identity_eq Identity.identity_in Identity.hash_loop Identity.hash_stream
    Identity.content_identity_of_bytes Classification.occupied_by_other Classification.classify
    Planner.rstrip_slash Planner.session_path_of Planner.insert_file Planner.sort_files
    Planner.append_planned Planner.plan_new Planner.plan_by Planner.plan_file Planner.plan_files
    Planner.plan_of Planner.build_plan text_eq text_le
planned_ok = refl

build_plan-CopiesOnce_example :
    (plan.files ≡ files_for (codes "/b") [] (sort_files files)) × CopiesOnce [] plan.files
build_plan-CopiesOnce_example = build_plan-CopiesOnce files (codes "/b") plan planned_ok

build_plan-Counted_example : Counted plan
build_plan-Counted_example = build_plan-Counted files (codes "/b") plan planned_ok

build_plan_order_example :
    IsSorted (map planned_path plan.files) × Perm (map planned_path plan.files) (map path_of files)
build_plan_order_example = build_plan_order files (codes "/b") plan planned_ok

abbrev pub usage : DiskUsage
usage = record { total_bytes = 1000; free_bytes = 500 }

abbrev pub margins : Margins
margins = record {
  safety_margin_percent = 5;
  safety_margin_min_bytes = 10;
  reserve_floor_bytes = 20;
  metadata_estimate_bytes = 0;
}

abbrev pub inputs : List ClassificationInput
inputs = photo_input (codes "b") ∷ photo_input (codes "a") ∷ []

inputs-Distinct : Distinct inputs
unfolding text_eq
inputs-Distinct = (((λ e. absurd (cc ((text_eq_iff (codes "a") (codes "b")).1 e))), tt), (tt, tt))

run_preflight-total_example :
    (r : PreflightResult) × (run_preflight nothing_verified none usage margins (codes "/b") inputs
      ≡ done r)
run_preflight-total_example =
    run_preflight-total nothing_verified none usage margins (codes "/b") inputs inputs-Distinct
      (omega arith)

abbrev pub preflight_or : PreflightResult → Preflight → PreflightResult
preflight_or other (done r) = r
preflight_or other _ = other

abbrev pub preflight : PreflightResult
preflight =
    preflight_or (Preflight.preflight_result plan assessment)
      (run_preflight nothing_verified none usage margins (codes "/b") inputs)

preflight_ok :
    run_preflight nothing_verified none usage margins (codes "/b") inputs ≡ done preflight
unfolding Identity.identity_eq Identity.identity_in Identity.hash_loop Identity.hash_stream
    Identity.content_identity_of_bytes Classification.occupied_by_other Classification.classify
    Planner.rstrip_slash Planner.session_path_of Planner.insert_file Planner.sort_files
    Planner.append_planned Planner.plan_new Planner.plan_by Planner.plan_file Planner.plan_files
    Planner.plan_of Planner.build_plan Capacity.safety_margin_bytes
    Capacity.operational_reserve_bytes Capacity.assessment_of Capacity.assess_capacity
    Preflight.classification_of Preflight.look_up Preflight.to_classified Preflight.capacity_input
    Preflight.outcome_of Preflight.preflight_result Preflight.assessed Preflight.planned
    Preflight.run_preflight Int.◌+ℤ◌ Int.◌-ℤ◌ Int.◌*ℤ◌ Int.◌//ℤ◌ Int.max_ℤ text_eq text_le
preflight_ok = refl

run_preflight-Assessed_example : Assessed usage preflight
run_preflight-Assessed_example =
    run_preflight-Assessed nothing_verified none usage margins (codes "/b") inputs preflight
      preflight_ok
