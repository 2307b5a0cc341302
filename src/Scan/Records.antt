-- ===== src/Scan/Records.antt =====
-- backup/preflight.py: the counts and the records of a scan, as one more input is added.
use mathlib.Core.List.{append-nil}
use pi_mobile_photobackup.Prelude.{
  ℕ, suc, ◌+◌, Text, none, some, List, [], ◌∷◌, ◌++◌, length, length-append, ◌≡◌, refl, sym, ap,
  ◌∙◌, arith,
}
use pi_mobile_photobackup.Classification.{ClassificationInput}
use pi_mobile_photobackup.Snapshot.{SourceFileRecord}
use pi_mobile_photobackup.Scan.{ScanResult, count_up}

abbrev pub sum_counts : List (Text × ℕ) → ℕ
sum_counts [] = 0
sum_counts ((e, n) ∷ rest) = n + sum_counts rest

-- The records of the inputs that were read.
abbrev pub records_of : List ClassificationInput → List SourceFileRecord
records_of [] = []
records_of (i ∷ is) = elim i.identity [
  | none ↦ records_of is
  | some c ↦
      record { relative_path = i.relative_path; size_bytes = c.size_bytes; sha256 = c.sha256 }
      ∷ records_of is
]

-- A scan that accounts for `n` entries.
pub record IsAccount (n : ℕ) (s : ScanResult) : Type 0 where
  pub counted : length s.inputs + sum_counts s.skipped_ext_counts + s.skipped_hidden_count ≡ n
  pub recorded : s.records ≡ records_of s.inputs

pub sum_counts-count_up :
    (ext : Text) (counts : List (Text × ℕ))
    → sum_counts (count_up ext counts) ≡ suc (sum_counts counts)
unfolding count_up
sum_counts-count_up ext [] = omega arith
sum_counts-count_up ext ((e, n) ∷ rest) = ground (arith, sum_counts-count_up ext rest)

records_of-append :
    (is js : List ClassificationInput) → records_of (is ++ js) ≡ records_of is ++ records_of js
records_of-append [] js = refl
records_of-append (i ∷ is) js = ground (arith, records_of-append is js)

-- One more input, with its record if it was read.
pub add_input :
    (n : ℕ) (s : ScanResult) (i : ClassificationInput)
    → IsAccount n s
    → IsAccount
        (suc n)
        (record s { inputs = s.inputs ++ i ∷ []; records = s.records ++ records_of (i ∷ []) })
add_input n s i h = record {
  counted = omega (arith, h.counted, length-append s.inputs (i ∷ []));
  recorded =
      ap (λ l. l ++ records_of (i ∷ [])) h.recorded ∙ sym (records_of-append s.inputs (i ∷ []));
}

-- One more input that was not read.
pub add_unread :
    (n : ℕ) (s : ScanResult) (i : ClassificationInput)
    → i.identity ≡ none
    → IsAccount n s
    → IsAccount (suc n) (record s { inputs = s.inputs ++ i ∷ [] })
add_unread n s i unread h = record {
  counted = omega (arith, h.counted, length-append s.inputs (i ∷ []));
  recorded =
      h.recorded
      ∙ sym (append-nil (records_of s.inputs))
      ∙ ap (λ l. records_of s.inputs ++ l) (none_read i unread)
      ∙ sym (records_of-append s.inputs (i ∷ []));
}
  where
    none_read : (i : ClassificationInput) → i.identity ≡ none → [] ≡ records_of (i ∷ [])
    none_read i e = ground (arith, e)
