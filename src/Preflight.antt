-- ===== src/Preflight.antt =====
-- aethereal/backup/preflight.py from the scanned files on: classification, plan, capacity, outcome.
-- The walk of the card is in Scan.antt, and its classification inputs are given here; the snapshot
-- digest is not modelled. The proofs are in Preflight/Outcome.antt.
pub mod Outcome
pub mod Total
use pi_mobile_photobackup.Prelude.{
  ℕ, zero, suc, ◌+◌, Text, codes, Bool, true, false, not, ◌||◌, Option, none, some, List, [], ◌∷◌,
  ◌++◌, map, length, count_p, sum_p, ◌==◌, text_eq, if◌then◌else◌,
}
use pi_mobile_photobackup.Prelude.Int.{ℤ, pos}
use pi_mobile_photobackup.Identity.{ContentIdentity}
use pi_mobile_photobackup.Classification.{
  FileClassification, new, already_backed_up, ClassificationInput, classify,
}
use pi_mobile_photobackup.Planner.{ClassifiedFile, PlannedFile, Plan, build_plan}
use pi_mobile_photobackup.Capacity.{
  Checked, ok, value_error, CapacityAssessment, CapacityInput, assess_capacity,
}

pub data PreflightOutcome : Type 0 where
  ready warning blocked : PreflightOutcome

-- Why a preflight is blocked; the shortfall is kept as a number.
pub data BlockReason : Type 0 where
  plan_reason : Text → BlockReason
  insufficient_capacity : ℤ → BlockReason

pub record PreflightResult : Type 0 where
  pub outcome : PreflightOutcome
  pub plan : Plan
  pub capacity : CapacityAssessment
  pub files_discovered : ℕ
  pub new_file_count : ℕ
  pub source_bytes_scanned : ℕ
  pub already_backed_up_bytes : ℕ
  pub warnings : List ℕ
  pub block_reasons : List BlockReason

-- `platform.disk_usage(destination_path)`
pub record DiskUsage : Type 0 where
  pub total_bytes : ℕ
  pub free_bytes : ℕ

pub record Margins : Type 0 where
  pub safety_margin_percent : ℕ
  pub safety_margin_min_bytes : ℕ
  pub reserve_floor_bytes : ℕ
  pub metadata_estimate_bytes : ℕ

-- What may go wrong: the planner's assertion, a missing key, or a `ValueError`.
pub data Preflight : Type 0 where
  done : PreflightResult → Preflight
  assertion_failed : Preflight
  key_error : Preflight
  invalid : Text → Preflight

module _ (verified : ContentIdentity → Bool)
    (occupant : Option (Text → Option ContentIdentity)) where
  -- The dictionary by path; of two entries with one path the later one stays.
  unfoldable pub classification_of : List ClassificationInput → List (Text × FileClassification)
  classification_of [] = []
  classification_of (item ∷ items) =
      (item.relative_path, classify verified occupant item) ∷ classification_of items

unfoldable pub look_up : Text → List (Text × FileClassification) → Option FileClassification
look_up path [] = none
look_up path ((p, c) ∷ rest) = elim (look_up path rest) [
  | some later ↦ some later
  | none ↦ if text_eq p path then some c else none
]

abbrev pub size_of : Option ContentIdentity → ℕ
size_of none = 0
size_of (some i) = i.size_bytes

unfoldable pub to_classified :
    List ClassificationInput → List (Text × FileClassification) → Option (List ClassifiedFile)
unfolding look_up
to_classified [] classes = some []
to_classified (item ∷ items) classes = elim (look_up item.relative_path classes) [
  | none ↦ none
  | some c ↦ elim (to_classified items classes) [
    | none ↦ none
    | some rest ↦ some (
        record {
          relative_path = item.relative_path;
          identity = item.identity;
          size_bytes = size_of item.identity;
          classification = c;
        }
        ∷ rest)
  ]
]

abbrev pub is_new : FileClassification → Bool
is_new new = true
is_new _ = false

abbrev pub is_backed_up : FileClassification → Bool
is_backed_up already_backed_up = true
is_backed_up _ = false

abbrev has_identity : Option ContentIdentity → Bool
has_identity none = false
has_identity (some _) = true

unfoldable pub capacity_input : Plan → DiskUsage → Margins → CapacityInput
capacity_input plan usage margins = record {
  destination_capacity_bytes = pos usage.total_bytes;
  available_bytes = pos usage.free_bytes;
  new_file_bytes = pos plan.new_object_bytes;
  largest_new_file_bytes = pos plan.largest_new_object_bytes;
  safety_margin_percent = pos margins.safety_margin_percent;
  safety_margin_min_bytes = pos margins.safety_margin_min_bytes;
  metadata_estimate_bytes = pos margins.metadata_estimate_bytes;
  reserve_floor_bytes = pos margins.reserve_floor_bytes;
}

unfoldable pub outcome_of : Plan → CapacityAssessment → PreflightOutcome
outcome_of plan capacity =
    if plan.blocked || not capacity.sufficient
    then blocked
    else if not (plan.unsupported_count == 0)
    then warning
    else ready

unfoldable pub preflight_result : Plan → CapacityAssessment → PreflightResult
unfolding outcome_of
preflight_result plan capacity = record {
  outcome = outcome_of plan capacity;
  plan = plan;
  capacity = capacity;
  files_discovered = length plan.files;
  new_file_count = count_p (λ f. is_new f.classification) plan.files;
  source_bytes_scanned =
      sum_p (λ f. has_identity f.identity) (λ f. f.planned_size_bytes) plan.files;
  already_backed_up_bytes =
      sum_p (λ f. is_backed_up f.classification) (λ f. f.planned_size_bytes) plan.files;
  warnings = if not (plan.unsupported_count == 0) then plan.unsupported_count ∷ [] else [];
  block_reasons =
      map plan_reason plan.block_reasons
      ++ (if not capacity.sufficient
          then insufficient_capacity capacity.shortfall_bytes ∷ []
          else []);
}

unfoldable pub assessed : Plan → Checked CapacityAssessment → Preflight
unfolding preflight_result
assessed plan (ok capacity) = done (preflight_result plan capacity)
assessed plan (value_error message) = invalid message

unfoldable pub planned : Option Plan → DiskUsage → Margins → Preflight
unfolding assessed capacity_input
planned none usage margins = assertion_failed
planned (some plan) usage margins =
    assessed plan (assess_capacity (capacity_input plan usage margins))

unfoldable pub run_preflight :
    (ContentIdentity → Bool)
    → Option (Text → Option ContentIdentity)
    → DiskUsage
    → Margins
    → Text
    → List ClassificationInput
    → Preflight
unfolding to_classified classification_of planned
run_preflight verified occupant usage margins session_root inputs =
    elim (to_classified inputs (classification_of verified occupant inputs)) [
      | none ↦ key_error
      | some classified ↦ planned (build_plan classified session_root) usage margins
    ]
