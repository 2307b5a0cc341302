-- ===== src/Preflight/Outcome.antt =====
-- What the outcome of a preflight promises of its plan and of the space.
use pi_mobile_photobackup.Prelude.{
  ◌≡◌, refl, ◌≢◌, ◌∙◌, sym, subst, ap, Text, Bool, true, false, Option, none, some, List, arith,
  sum_p,
}
use pi_mobile_photobackup.Prelude.Int.{pos, ◌+ℤ◌, ◌-ℤ◌, ◌≤ℤ◌}
use pi_mobile_photobackup.Identity.{ContentIdentity}
use pi_mobile_photobackup.Classification.{ClassificationInput}
use pi_mobile_photobackup.Capacity
use pi_mobile_photobackup.Capacity.{
  Checked, value_error, CapacityAssessment, assess_capacity, assessment_of,
}
use pi_mobile_photobackup.Capacity.Bounds.{assess_capacity_sound, assess_parts}
use pi_mobile_photobackup.Planner.{ClassifiedFile, Plan, build_plan}
use pi_mobile_photobackup.Planner.Counts.{
  Counted, having, is_copy, is_conflict, is_unreadable, is_skip, size_of, build_plan-Counted,
}
use pi_mobile_photobackup.Preflight.{
  ready, blocked, PreflightResult, done, key_error, DiskUsage, Margins, to_classified,
  classification_of, capacity_input, outcome_of, preflight_result, planned, assessed, run_preflight,
}

-- What an outcome says, about the plan's files and the free space.
pub record Assessed (usage : DiskUsage) (r : PreflightResult) : Type 0 where
  pub plan_clear :
      r.outcome ≢ blocked
      → (having is_conflict r.plan.files ≡ 0) × (having is_unreadable r.plan.files ≡ 0)
  pub space_left :
      r.outcome ≢ blocked
      → r.capacity.operational_reserve +ℤ r.capacity.safety_margin
        ≤ℤ pos usage.free_bytes -ℤ pos (sum_p (λ f. is_copy f.action) size_of r.plan.files)
  pub nothing_skipped : r.outcome ≡ ready → having is_skip r.plan.files ≡ 0

outcome_parts :
    (plan : Plan) (a : CapacityAssessment)
    → (outcome_of plan a ≢ blocked → (plan.blocked ≡ false) × (a.sufficient ≡ true))
      × (outcome_of plan a ≡ ready → plan.unsupported_count ≡ 0)
unfolding outcome_of
outcome_parts plan a = (λ h. ground (arith, h), λ h. ground (arith, h))

module _ (usage : DiskUsage) (margins : Margins) (plan : Plan) (counted : Counted plan) where
  after_write :
      (a : CapacityAssessment)
      → assess_capacity (capacity_input plan usage margins) ≡ Capacity.ok a
      → a.estimated_available_after_bytes
        ≡ pos usage.free_bytes -ℤ pos (sum_p (λ f. is_copy f.action) size_of plan.files)
  unfolding assessment_of capacity_input
  after_write a h =
      let (_, _, _, _, e, _, _) = assess_parts (capacity_input plan usage margins) a h in
      ap (λ x. x.estimated_available_after_bytes) e
      ∙ ap (λ n. pos usage.free_bytes -ℤ pos n) counted.bytes

  result-Assessed :
      (a : CapacityAssessment)
      → assess_capacity (capacity_input plan usage margins) ≡ Capacity.ok a
      → Assessed usage (preflight_result plan a)
  unfolding preflight_result
  result-Assessed a h =
      let (clear, none_skipped) = outcome_parts plan a in
      record {
        plan_clear = λ k. counted.blocked.0 (clear k).0;
        space_left = λ k.
            rw (← after_write a h)
              ((assess_capacity_sound (capacity_input plan usage margins) a h).0 (clear k).1).0;
        nothing_skipped = λ k. sym counted.skipped ∙ none_skipped k;
      }

  assessed-Assessed :
      (c : Checked CapacityAssessment) (r : PreflightResult)
      → assess_capacity (capacity_input plan usage margins) ≡ c
      → assessed plan c ≡ done r
      → Assessed usage r
  unfolding assessed
  assessed-Assessed (Capacity.ok a) r h e =
      subst (Assessed usage) (done-injective e) (result-Assessed a h)
    where
      done-injective : {p q : PreflightResult} → done p ≡ done q → p ≡ q
      done-injective k = cc k
  assessed-Assessed (value_error m) r h e = absurd (cc e)

module _ (verified : ContentIdentity → Bool) (occupant : Option (Text → Option ContentIdentity))
    (usage : DiskUsage) (margins : Margins) (session_root : Text) where
  planned-Assessed :
      (items : List ClassifiedFile) (o : Option Plan) (r : PreflightResult)
      → build_plan items session_root ≡ o
      → planned o usage margins ≡ done r
      → Assessed usage r
  unfolding planned
  planned-Assessed items none r e h = absurd (cc h)
  planned-Assessed items (some plan) r e h =
      assessed-Assessed usage margins plan (build_plan-Counted items session_root plan e) _ r refl h

  -- If a preflight returns an outcome other than BLOCKED, its plan has no file in conflict and
  -- none unreadable, and the free space less the sizes of the files to be copied is at least the
  -- operational reserve and the safety margin together. If the outcome is READY, the plan skips no
  -- file.
  pub run_preflight-Assessed :
      (inputs : List ClassificationInput) (r : PreflightResult)
      → run_preflight verified occupant usage margins session_root inputs ≡ done r
      → Assessed usage r
  unfolding run_preflight
  run_preflight-Assessed inputs r h =
      by (to_classified inputs (classification_of verified occupant inputs)) h
    where
      by :
          (o : Option (List ClassifiedFile))
          → (elim o [
            | none ↦ key_error
            | some classified ↦ planned (build_plan classified session_root) usage margins
          ])
            ≡ done r
          → Assessed usage r
      by none h = absurd (cc h)
      by (some items) h = planned-Assessed items _ r refl h
