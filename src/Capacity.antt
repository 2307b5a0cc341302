-- ===== src/Capacity.antt =====
-- aethereal/backup/capacity.py: the integer arithmetic of the destination-capacity check. Python's
-- integers are ℤ here, since the functions reject negative arguments. The proofs are in
-- Capacity/Bounds.antt.
pub mod Bounds
use pi_mobile_photobackup.Prelude.{
  ℕ, Text, codes, Bool, not, List, [], ◌∷◌, ◌≡◌, refl, if◌then◌else◌,
}
use pi_mobile_photobackup.Prelude.Int.{ℤ, pos, ◌+ℤ◌, ◌-ℤ◌, ◌*ℤ◌, ◌//ℤ◌, max_ℤ, ltb_ℤ}

-- What a function that may raise `ValueError` gives.
pub data Checked (A : Type 0) : Type 0 where
  value_error : Text → Checked A
  ok : A → Checked A

module _ {A B : Type 0} where
  infixl 5 ◌>>=◌ ◌>>◌
  abbrev pub ◌>>=◌ : Checked A → (A → Checked B) → Checked B
  value_error message >>= later = value_error message
  ok a >>= later = later a

  abbrev pub ◌>>◌ : Checked A → Checked B → Checked B
  check >> later = check >>= λ _. later

  -- A step that went through had a value, from which the rest went through.
  pub >>=-eq-ok :
      (check : Checked A) (later : A → Checked B) {b : B}
      → check >>= later ≡ ok b
      → (a : A) × (check ≡ ok a) × (later a ≡ ok b)
  >>=-eq-ok (value_error message) later h = cc
  >>=-eq-ok (ok a) later h = (a, refl, h)

-- `if value < 0: raise ValueError(...)`
abbrev pub require_nonneg : Text → ℤ → Checked (Unit {0})
require_nonneg message value = if ltb_ℤ value (pos 0) then value_error message else ok tt

-- `if not 0 <= value <= 100: raise ValueError(...)`
abbrev pub require_between : Text → ℤ → Checked (Unit {0})
require_between message value =
    if ltb_ℤ value (pos 0)
    then value_error message
    else if ltb_ℤ (pos 100) value
    then value_error message
    else ok tt

abbrev pub default_safety_margin_percent : ℤ
default_safety_margin_percent = pos 5

abbrev pub default_safety_margin_min_bytes : ℤ
default_safety_margin_min_bytes = pos 10000000000

abbrev pub default_reserve_floor_bytes : ℤ
default_reserve_floor_bytes = pos 536870912

unfoldable pub safety_margin_bytes : ℤ → ℤ → ℤ → Checked ℤ
unfolding ◌*ℤ◌ ◌//ℤ◌ max_ℤ
safety_margin_bytes destination_capacity_bytes percent min_bytes = do
  require_nonneg (codes "destination_capacity_bytes must be non-negative")
      destination_capacity_bytes
  require_between (codes "percent must be between 0 and 100") percent
  require_nonneg (codes "min_bytes must be non-negative") min_bytes
  ok (max_ℤ ((destination_capacity_bytes *ℤ percent) //ℤ 100) min_bytes)

unfoldable pub operational_reserve_bytes : ℤ → ℤ → ℤ → Checked ℤ
unfolding max_ℤ ◌+ℤ◌
operational_reserve_bytes largest_new_file_bytes metadata_estimate_bytes reserve_floor_bytes = do
  require_nonneg (codes "largest_new_file_bytes must be non-negative") largest_new_file_bytes
  require_nonneg (codes "metadata_estimate_bytes must be non-negative") metadata_estimate_bytes
  require_nonneg (codes "reserve_floor_bytes must be non-negative") reserve_floor_bytes
  ok (max_ℤ largest_new_file_bytes reserve_floor_bytes +ℤ metadata_estimate_bytes)

pub record CapacityAssessment : Type 0 where
  pub destination_capacity_bytes : ℤ
  pub available_bytes : ℤ
  pub new_file_bytes : ℤ
  pub operational_reserve : ℤ
  pub safety_margin : ℤ
  pub required_bytes : ℤ
  pub shortfall_bytes : ℤ
  pub estimated_available_after_bytes : ℤ
  pub sufficient : Bool

-- The keyword arguments of `assess_capacity`.
pub record CapacityInput : Type 0 where
  pub destination_capacity_bytes : ℤ
  pub available_bytes : ℤ
  pub new_file_bytes : ℤ
  pub largest_new_file_bytes : ℤ
  pub safety_margin_percent : ℤ
  pub safety_margin_min_bytes : ℤ
  pub metadata_estimate_bytes : ℤ
  pub reserve_floor_bytes : ℤ

-- What follows the two computed parts.
unfoldable pub assessment_of : CapacityInput → ℤ → ℤ → CapacityAssessment
unfolding ◌+ℤ◌ ◌-ℤ◌
assessment_of c margin reserve =
    let required = c.new_file_bytes +ℤ reserve +ℤ margin in
    let sufficient = not (ltb_ℤ c.available_bytes required) in
    record {
      destination_capacity_bytes = c.destination_capacity_bytes;
      available_bytes = c.available_bytes;
      new_file_bytes = c.new_file_bytes;
      operational_reserve = reserve;
      safety_margin = margin;
      required_bytes = required;
      shortfall_bytes = if sufficient then pos 0 else required -ℤ c.available_bytes;
      estimated_available_after_bytes = c.available_bytes -ℤ c.new_file_bytes;
      sufficient = sufficient;
    }

unfoldable pub assess_capacity : CapacityInput → Checked CapacityAssessment
assess_capacity c = do
  require_nonneg (codes "available_bytes must be non-negative") c.available_bytes
  require_nonneg (codes "new_file_bytes must be non-negative") c.new_file_bytes
  margin ←
      safety_margin_bytes c.destination_capacity_bytes c.safety_margin_percent
        c.safety_margin_min_bytes
  reserve ←
      operational_reserve_bytes c.largest_new_file_bytes c.metadata_estimate_bytes
        c.reserve_floor_bytes
  ok (assessment_of c margin reserve)
