-- ===== src/Capacity/Bounds.antt =====
-- What the capacity assessment of capacity.py promises.
use pi_mobile_photobackup.Prelude.{
  ℕ, ◌*◌, ◌/◌, ◌≤◌, max, Text, codes, not, ◌≡◌, refl, ◌↔◌, true, false, arith,
}
use pi_mobile_photobackup.Prelude.Int.{
  ℤ, pos, ◌+ℤ◌, ◌-ℤ◌, ◌*ℤ◌, ◌//ℤ◌, ◌≤ℤ◌, max_ℤ, ltb_ℤ, int_laws,
}
use pi_mobile_photobackup.Capacity.{
  ok, safety_margin_bytes, operational_reserve_bytes, CapacityInput, CapacityAssessment,
  assessment_of, assess_capacity, >>=-eq-ok, require_nonneg,
}

-- The arguments that the assessment accepts.
pub record InRange (c : CapacityInput) : Type 0 where
  pub capacity : pos 0 ≤ℤ c.destination_capacity_bytes
  pub available : pos 0 ≤ℤ c.available_bytes
  pub new_files : pos 0 ≤ℤ c.new_file_bytes
  pub largest : pos 0 ≤ℤ c.largest_new_file_bytes
  pub percent_low : pos 0 ≤ℤ c.safety_margin_percent
  pub percent_high : c.safety_margin_percent ≤ℤ pos 100
  pub minimum : pos 0 ≤ℤ c.safety_margin_min_bytes
  pub metadata : pos 0 ≤ℤ c.metadata_estimate_bytes
  pub floor : pos 0 ≤ℤ c.reserve_floor_bytes

safety_margin_range :
    (capacity percent minimum margin : ℤ)
    → safety_margin_bytes capacity percent minimum ≡ ok margin
    → (pos 0 ≤ℤ capacity)
      × (pos 0 ≤ℤ percent)
      × (percent ≤ℤ pos 100)
      × (pos 0 ≤ℤ minimum)
      × (minimum ≤ℤ margin)
unfolding safety_margin_bytes
safety_margin_range capacity percent minimum margin h = ground arith

reserve_range :
    (largest metadata floor reserve : ℤ)
    → operational_reserve_bytes largest metadata floor ≡ ok reserve
    → (pos 0 ≤ℤ largest)
      × (pos 0 ≤ℤ metadata)
      × (pos 0 ≤ℤ floor)
      × (largest ≤ℤ reserve)
      × (floor ≤ℤ reserve)
unfolding operational_reserve_bytes
reserve_range largest metadata floor reserve h = ground arith

-- For natural numbers and a percentage of at most 100 the margin is the greater of the percentage
-- of the capacity, rounded down, and the minimum.
pub safety_margin_of_nat :
    (capacity percent minimum : ℕ)
    → percent ≤ 100
    → safety_margin_bytes (pos capacity) (pos percent) (pos minimum)
      ≡ ok (pos (max (capacity * percent / 100) minimum))
unfolding safety_margin_bytes
safety_margin_of_nat capacity percent minimum h = ground arith

require_nonneg-eq-ok :
    (message : Text) (x : ℤ) {u : Unit {0}} → require_nonneg message x ≡ ok u → pos 0 ≤ℤ x
require_nonneg-eq-ok message x h = ground arith

require_nonneg_of_le : (message : Text) (x : ℤ) → pos 0 ≤ℤ x → require_nonneg message x ≡ ok tt
require_nonneg_of_le message x h = ground arith

-- The comparison that decides `sufficient`, and the shortfall.
gap :
    (x y : ℤ)
    → (not (ltb_ℤ x y) ≡ true → y ≤ℤ x)
      × (not (ltb_ℤ x y) ≡ false → (pos 1 ≤ℤ y -ℤ x) × (x +ℤ (y -ℤ x) ≡ y))
unfolding ◌-ℤ◌ ◌+ℤ◌
gap x y = ground arith

left_over : (x n r m : ℤ) → n +ℤ r +ℤ m ≤ℤ x → r +ℤ m ≤ℤ x -ℤ n
left_over x n r m h = omega int_laws

assessment_of_sound :
    (c : CapacityInput) (margin reserve : ℤ)
    → let a = assessment_of c margin reserve in
      (a.sufficient ≡ true
        → (a.operational_reserve +ℤ a.safety_margin ≤ℤ a.estimated_available_after_bytes)
          × (a.shortfall_bytes ≡ pos 0))
      × (a.sufficient ≡ false
          → (pos 1 ≤ℤ a.shortfall_bytes)
            × (a.available_bytes +ℤ a.shortfall_bytes ≡ a.required_bytes))
unfolding assessment_of
assessment_of_sound c margin reserve =
    let required = c.new_file_bytes +ℤ reserve +ℤ margin in
    let (above, below) = gap c.available_bytes required in
    (
      λ yes_sufficient. (
        left_over c.available_bytes c.new_file_bytes reserve margin (above yes_sufficient),
        rw yes_sufficient,
      ),
      λ short. rw short (below short),
    )

module _ (c : CapacityInput) (a : CapacityAssessment) (h : assess_capacity c ≡ ok a) where
  -- An assessment is made up of its two parts.
  pub assess_parts :
      (margin reserve : ℤ) × (safety_margin_bytes c.destination_capacity_bytes
          c.safety_margin_percent c.safety_margin_min_bytes
        ≡ ok margin)
      × (operational_reserve_bytes c.largest_new_file_bytes c.metadata_estimate_bytes
            c.reserve_floor_bytes
          ≡ ok reserve)
      × (a ≡ assessment_of c margin reserve)
      × (pos 0 ≤ℤ c.available_bytes)
      × (pos 0 ≤ℤ c.new_file_bytes)
  unfolding assess_capacity
  assess_parts =
      let (_, available, h1) = >>=-eq-ok _ _ h in
      let (_, new_files, h2) = >>=-eq-ok _ _ h1 in
      let (margin, m, h3) = >>=-eq-ok _ _ h2 in
      let (reserve, r, h4) = >>=-eq-ok _ _ h3 in
      (
        margin,
        reserve,
        m,
        r,
        cc,
        require_nonneg-eq-ok _ _ available,
        require_nonneg-eq-ok _ _ new_files,
      )

  -- A backup that is assessed as sufficient leaves, after its new files are written, at least the
  -- operational reserve and the safety margin free, and has no shortfall; one that is not has a
  -- positive shortfall, and with that much more space the required bytes would just be there.
  pub assess_capacity_sound :
      (a.sufficient ≡ true
        → (a.operational_reserve +ℤ a.safety_margin ≤ℤ a.estimated_available_after_bytes)
          × (a.shortfall_bytes ≡ pos 0))
      × (a.sufficient ≡ false
          → (pos 1 ≤ℤ a.shortfall_bytes)
            × (a.available_bytes +ℤ a.shortfall_bytes ≡ a.required_bytes))
  assess_capacity_sound =
      let (margin, reserve, _, _, e, _, _) = assess_parts in
      rw e (assessment_of_sound c margin reserve)

  assess-InRange : InRange c
  assess-InRange =
      let (margin, reserve, m, r, e, av, nf) = assess_parts in
      let (m1, m2, m3, m4, _) = safety_margin_range _ _ _ _ m in
      let (r1, r2, r3, _, _) = reserve_range _ _ _ _ r in
      record {
        capacity = m1;
        available = av;
        new_files = nf;
        largest = r1;
        percent_low = m2;
        percent_high = m3;
        minimum = m4;
        metadata = r2;
        floor = r3;
      }

safety_margin_total :
    (capacity percent minimum : ℤ)
    → pos 0 ≤ℤ capacity
    → pos 0 ≤ℤ percent
    → percent ≤ℤ pos 100
    → pos 0 ≤ℤ minimum
    → safety_margin_bytes capacity percent minimum
      ≡ ok (max_ℤ ((capacity *ℤ percent) //ℤ 100) minimum)
unfolding safety_margin_bytes
safety_margin_total capacity percent minimum h1 h2 h3 h4 = ground arith

reserve_total :
    (largest metadata floor : ℤ)
    → pos 0 ≤ℤ largest
    → pos 0 ≤ℤ metadata
    → pos 0 ≤ℤ floor
    → operational_reserve_bytes largest metadata floor ≡ ok (max_ℤ largest floor +ℤ metadata)
unfolding operational_reserve_bytes
reserve_total largest metadata floor h1 h2 h3 = ground arith

assess_total :
    (c : CapacityInput) → InRange c → (a : CapacityAssessment) × (assess_capacity c ≡ ok a)
unfolding assess_capacity
assess_total c r = (
  assessment_of c
      (max_ℤ ((c.destination_capacity_bytes *ℤ c.safety_margin_percent) //ℤ 100)
        c.safety_margin_min_bytes)
      (max_ℤ c.largest_new_file_bytes c.reserve_floor_bytes +ℤ c.metadata_estimate_bytes),
  rw
      (require_nonneg_of_le (codes "available_bytes must be non-negative") c.available_bytes
        r.available)
      (rw
        (require_nonneg_of_le (codes "new_file_bytes must be non-negative") c.new_file_bytes
          r.new_files)
        (rw (safety_margin_total _ _ _ r.capacity r.percent_low r.percent_high r.minimum)
          (rw (reserve_total _ _ _ r.largest r.metadata r.floor) refl))),
)

-- The assessment raises `ValueError` exactly when an argument is out of range: it returns a value
-- for the arguments in range, and for no others.
pub assess_capacity_accepts :
    (c : CapacityInput) → ((a : CapacityAssessment) × (assess_capacity c ≡ ok a)) ↔ InRange c
assess_capacity_accepts c = (λ h. assess-InRange c h.0 h.1, assess_total c)
