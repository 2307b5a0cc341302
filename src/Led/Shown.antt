-- ===== src/Led/Shown.antt =====
-- What the LED shows, and when.
use mathlib.Core.List.{append-nil, append_assoc}
use pi_mobile_photobackup.Prelude.{
  ℕ, zero, suc, ◌+◌, ◌*◌, ◌≤◌, ◌≡◌, refl, ◌∙◌, ◌↔◌, Bool, false, some, List, [], ◌∷◌, ◌++◌, arith,
  map, count_p,
}
use pi_mobile_photobackup.Led.{
  PatternStep, Pattern, blinks, progress_bucket, progress_overlay, LedOutput, render_steps,
  render_pattern, set_led, sleep, on_for, off_for,
}

lit_blinks :
    (n a b : ℕ) (rest : List PatternStep)
    → count_p (λ s. s.lit) (blinks n a b ++ rest) ≡ n + count_p (λ s. s.lit) rest
unfolding blinks
lit_blinks zero a b rest = omega arith
lit_blinks (suc n) a b rest = omega (arith, lit_blinks n a b rest)

progress_bucket-le : (done total : ℕ) → progress_bucket done total ≤ 4
unfolding progress_bucket
progress_bucket-le done total = ground arith

overlay_lem :
    (bucket : ℕ)
    → bucket ≤ 4
    → (p : Pattern) × (progress_overlay bucket ≡ some p)
      × (count_p (λ s. s.lit) p.steps ≡ suc bucket)
unfolding progress_overlay
overlay_lem bucket h = (
  record {
    steps = on_for 800 ∷ off_for 400 ∷ blinks bucket 150 200 ++ off_for 800 ∷ [];
    repeat = false;
  },
  ground (arith, h),
  omega (arith, lit_blinks bucket 150 200 (off_for 800 ∷ [])),
)

-- Whatever the progress, its bucket is one that the overlay accepts, and the overlay lights the
-- LED once more than the bucket says.
pub progress_overlay-progress_bucket :
    (done total : ℕ)
    → (p : Pattern) × (progress_overlay (progress_bucket done total) ≡ some p)
      × (count_p (λ s. s.lit) p.steps ≡ suc (progress_bucket done total))
progress_overlay-progress_bucket done total =
    overlay_lem (progress_bucket done total) (progress_bucket-le done total)

-- More progress of the same total never gives a smaller bucket.
pub progress_bucket_mono :
    (done later total : ℕ) → done ≤ later → progress_bucket done total ≤ progress_bucket later total
unfolding progress_bucket
progress_bucket_mono done later total h = ground (arith, h)

render_steps_lem :
    (ss : List PatternStep) (output : LedOutput)
    → render_steps ss output ≡ record {
      writes = output.writes ++ map (λ s. s.lit) ss;
      slept = output.slept ++ map (λ s. s.duration_ms) ss;
    }
unfolding render_steps set_led sleep
render_steps_lem [] output = rw append-nil (rw append-nil refl)
render_steps_lem (s ∷ ss) output = render_steps_lem ss _ ∙ rw append_assoc (rw append_assoc refl)

-- Rendering a pattern sets the LED as its steps say, one after the other, and then off, and waits
-- for the durations of the steps in their order.
pub render_pattern_lem :
    (p : Pattern) (output : LedOutput)
    → render_pattern p output ≡ record {
      writes = (output.writes ++ map (λ s. s.lit) p.steps) ++ false ∷ [];
      slept = output.slept ++ map (λ s. s.duration_ms) p.steps;
    }
unfolding render_pattern set_led
render_pattern_lem p output = rw (render_steps_lem p.steps output) refl

abbrev pub IsMarkedBy : ℕ → ℕ → ℕ → Type 0
IsMarkedBy bucket done total =
    ((1 ≤ bucket) ↔ (25 * total ≤ done))
    × ((2 ≤ bucket) ↔ (50 * total ≤ done))
    × ((3 ≤ bucket) ↔ (75 * total ≤ done))
    × ((4 ≤ bucket) ↔ (100 * total ≤ done))

-- What is written to a LED that nothing was written to.
abbrev pub written : Pattern → List Bool
written p = (render_pattern p (record { writes = []; slept = [] })).writes
