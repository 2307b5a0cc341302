-- ===== src/Engine/JobIds.antt =====
-- Job ids: the day and a running number, which counts the jobs of the day.
use pi_mobile_photobackup.Prelude.{
  ℕ, zero, suc, ◌+◌, ◌*◌, ◌-◌, ◌/◌, ◌%◌, ◌≤◌, ◌<◌, ◌≡◌, refl, sym, ap, ◌∙◌, Text, codes, true,
  false, none, some, List, [], ◌∷◌, ◌++◌, arith, length, replicate, ltb, text_eq, text_eq_iff,
  count_p-snoc, All, All-append, append_left_cancel, Bool-cases, inl, inr,
}
use pi_mobile_photobackup.Manifest.{
  Manifest, JobRow, has_job, create_backup_job, starts_with, count_jobs_for_date,
}
use pi_mobile_photobackup.Engine.{Now, digits, pad3, generate_job_id}

-- The number that decimal digits denote, after those of `n`.
abbrev pub read_on : ℕ → Text → ℕ
read_on n [] = n
read_on n (c ∷ cs) = read_on (n * 10 + (c - 48)) cs

read_on-append : (n : ℕ) (s t : Text) → read_on n (s ++ t) ≡ read_on (read_on n s) t
read_on-append n [] t = refl
read_on-append n (c ∷ cs) t = read_on-append (n * 10 + (c - 48)) cs t

read_on-replicate : (k : ℕ) → read_on 0 (replicate k 48) ≡ 0
read_on-replicate zero = refl
read_on-replicate (suc k) = read_on-replicate k

read_on-digits : (fuel n : ℕ) → n < fuel → read_on 0 (digits fuel n) ≡ n
unfolding digits
read_on-digits zero n h = absurd (omega arith)
read_on-digits (suc fuel) n h = elim (Bool-cases (ltb n 10)) [
  | inl small ↦ rw small (ground arith)
  | inr large ↦ rw large (
      ground (
        arith,
        read_on-append 0 (digits fuel (n / 10)) ((48 + n % 10) ∷ []),
        read_on-digits fuel (n / 10) (ground arith),
      ))
]

-- The decimal digits of a number, padded with zeros to three, read back as the number.
pub pad3_reads : (n : ℕ) → read_on 0 (pad3 n) ≡ n
unfolding pad3
pad3_reads n =
    let ds = digits (suc n) n in
    read_on-append 0 (replicate (3 - length ds) 48) ds
    ∙ ap (λ k. read_on k ds) (read_on-replicate (3 - length ds))
    ∙ read_on-digits (suc n) n (omega arith)

pad3-injective : (m n : ℕ) → pad3 m ≡ pad3 n → m ≡ n
pad3-injective m n h = sym (pad3_reads m) ∙ ap (read_on 0) h ∙ pad3_reads n

starts_with-append : (s t : Text) → starts_with s (s ++ t) ≡ true
unfolding starts_with
starts_with-append [] t = refl
starts_with-append (c ∷ cs) t = ground (arith, starts_with-append cs t)

-- The job is one of the first `n` with the prefix, or has another prefix.
abbrev IsNumbered : Text → ℕ → JobRow → Type 0
IsNumbered prefix n j =
    starts_with prefix j.job_id ≡ true → (k : ℕ) × (k ≤ n) × (j.job_id ≡ prefix ++ pad3 k)

-- The jobs of the day have the numbers that the engine gave them.
abbrev pub Numbered : Text → Manifest → Type 0
Numbered prefix m = All (IsNumbered prefix (count_jobs_for_date prefix m)) m.jobs

module _ (prefix : Text) (n : ℕ) where
  -- The next number is free.
  next_is_free :
      (js : List JobRow)
      → All (IsNumbered prefix n) js
      → has_job (prefix ++ pad3 (n + 1)) js ≡ false
  unfolding has_job
  next_is_free [] h = refl
  next_is_free (j ∷ js) h = elim (Bool-cases (text_eq j.job_id (prefix ++ pad3 (n + 1)))) [
    | inr other ↦ rw other (next_is_free js h.1)
    | inl same ↦
        let e = (text_eq_iff j.job_id (prefix ++ pad3 (n + 1))).0 same in
        let (k, le, at) = h.0 (rw e (starts_with-append prefix (pad3 (n + 1)))) in
        let clash = pad3-injective (n + 1) k (append_left_cancel prefix (sym e ∙ at)) in
        absurd (omega (arith, clash, le))
  ]

  IsNumbered-on :
      (js : List JobRow) → All (IsNumbered prefix n) js → All (IsNumbered prefix (n + 1)) js
  IsNumbered-on [] h = tt
  IsNumbered-on (j ∷ js) h =
      (λ s. let (k, le, at) = h.0 s in (k, omega (arith, le), at), IsNumbered-on js h.1)

-- If the jobs whose ids begin with the day have numbers of at most their count, the id that the
-- engine generates is not taken: creating the job with it succeeds. Afterwards one more job of the
-- day is counted, and the jobs of the day again have numbers of at most their count.
pub create_backup_job-generate_job_id :
    (now : Now) (m : Manifest) (state session_path : Text)
    → Numbered (now.compact ++ codes "-") m
    → (m' : Manifest) × (create_backup_job (generate_job_id now m) state session_path m ≡ some m')
      × (count_jobs_for_date (now.compact ++ codes "-") m'
          ≡ suc (count_jobs_for_date (now.compact ++ codes "-") m))
      × Numbered (now.compact ++ codes "-") m'
unfolding create_backup_job generate_job_id count_jobs_for_date
create_backup_job-generate_job_id now m state session_path h =
    let prefix = now.compact ++ codes "-" in
    let n = count_jobs_for_date prefix m in
    let row : JobRow = record {
      job_id = prefix ++ pad3 (n + 1);
      state = state;
      session_path = session_path;
      counts = none;
    } in
    let counted : count_jobs_for_date prefix (record m { jobs = m.jobs ++ row ∷ [] }) ≡ n + 1 =
      count_p-snoc (λ j. starts_with prefix j.job_id) (λ _. 0) row m.jobs
      ∙ rw (starts_with-append prefix (pad3 (n + 1))) refl in
    (
      record m { jobs = m.jobs ++ row ∷ [] },
      rw (next_is_free prefix n m.jobs h) refl,
      counted ∙ omega arith,
      rw counted (
          All-append (IsNumbered prefix (n + 1)) m.jobs (row ∷ []) (IsNumbered-on prefix n m.jobs h)
            ((λ _. (n + 1, omega arith, refl)), tt)),
    )
