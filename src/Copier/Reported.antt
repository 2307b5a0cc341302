-- ===== src/Copier/Reported.antt =====
-- What the result of `copy_verify_finalize` reports, and what the manifest holds of it.
use pi_mobile_photobackup.Prelude.{
  ℕ, zero, suc, ◌+◌, ◌≤◌, ◌≡◌, refl, ◌∙◌, ap, subst, Text, Bytes, true, not, ◌||◌, Option, none,
  some, arith, ◌⊎◌, inl, inr, text_eq, text_eq_iff, ◌==◌, if◌then◌else◌,
}
use pi_mobile_photobackup.Identity.{Sha256, ContentIdentity}
use pi_mobile_photobackup.Effects
use pi_mobile_photobackup.Effects.{
  pure, throw, gets, require, ◌>>=◌, ◌>>◌, value_error, os_error, file_not_found,
}
use pi_mobile_photobackup.Files.{unlink}
use pi_mobile_photobackup.Manifest.{
  Manifest, has_verified_object, find_identity, upsert_content_identity,
  mark_content_object_verified, finalize_session_entry, insert_session_entry,
}
use pi_mobile_photobackup.Manifest.Lookup.{find_identity-upsert, has_verified_object-mark}
use pi_mobile_photobackup.World.{
  World, SourceRead, missing, readable, fails_at, Environment, on_files,
}
use pi_mobile_photobackup.World.Rules.{
  Prop, After, Spec, Spec-pure, Spec-throw, Spec-if, Spec-bind, Spec-weaken, Spec-on_db,
  Spec-try_db, Spec-given, Spec-any,
}
use pi_mobile_photobackup.Journal.{mark_verified}
use pi_mobile_photobackup.Copier
use pi_mobile_photobackup.Copier.{
  CopyResult, failed_outcome, AttemptResult, attempt_ok, attempt_source_unstable,
  attempt_destination_mismatch, is_ok, Attempt, copy_loop, digest_of, create_exclusive,
  link_into_session, link_verified_object, write_partial, verify_landed, copy_delivered,
  copy_and_verify_once, rename, finalize, copy_rounds, copy_verify_finalize,
}
use pi_mobile_photobackup.Copier.Crash.{failed_ne_verified, unstable_ne_ok, ok_of_is_ok}

abbrev Any : Prop
Any _ _ = Unit {0}

finalize_session_entry-has_verified :
    (c : ContentIdentity) (job_id : Text) (object_id : ℕ) (session_path : Text) (m : Manifest)
    (i : ℕ) (m' : Manifest)
    → finalize_session_entry job_id object_id session_path m ≡ some (i, m')
    → has_verified_object c m' ≡ has_verified_object c m
unfolding finalize_session_entry insert_session_entry has_verified_object
finalize_session_entry-has_verified c job_id object_id session_path m i m' h = ground (arith, h)

module _ (c : ContentIdentity) where
  -- A row that says VERIFIED is found by the look-up that the preflight makes.
  abbrev Recorded : Prop
  Recorded f d = has_verified_object c d ≡ true

  mark_verified-Recorded :
      (job_id path session_path : Text)
      → Spec Any (mark_verified job_id c path session_path) (λ _. Recorded) Any
  unfolding mark_verified
  mark_verified-Recorded job_id path session_path =
      Spec-bind (λ i f d. find_identity c d.identities ≡ some i)
        (Spec-on_db (upsert_content_identity c) (λ f d h. tt)
          (λ f d h. (find_identity-upsert c d).0))
        λ i.
          Spec-bind (λ _. Recorded)
            (Spec-on_db (mark_content_object_verified i path) (λ f d h. tt)
              (λ f d h. has_verified_object-mark c i path d h))
            λ o.
              Spec-try_db (finalize_session_entry job_id o session_path) (λ f d h. tt)
                (λ f d a d' h e.
                  finalize_session_entry-has_verified c job_id o session_path d a d' e ∙ h)

  -- An attempt that succeeded has read and written what was expected.
  abbrev Agrees : Attempt → Prop
  Agrees a f d =
      a.result ≡ attempt_ok → (a.h2 ≡ c.sha256) × (a.h3 ≡ some c.sha256) × (a.size ≡ c.size_bytes)

  module _ (sha : Sha256) (env : Environment) (n : ℕ) (partial : Text) where
    verify_landed-Agrees :
        (h2 : Text) (size : ℕ)
        → h2 ≡ c.sha256
        → size ≡ c.size_bytes
        → Spec Any (verify_landed sha env n partial c h2 size) Agrees Any
    unfolding verify_landed
    verify_landed-Agrees h2 size e2 es =
        Spec-bind (λ _. Any) Spec-any
          λ o.
            Spec-bind (λ _. Any) Spec-any
              λ i.
                Spec-bind (λ _. Any) Spec-any
                  λ content.
                    Spec-bind (λ _. Any) Spec-any
                      λ h3.
                        Spec-if (text_eq h3 c.sha256) _ _
                          (λ same.
                            Spec-pure _
                              (λ f d h _. (e2, ap some ((text_eq_iff h3 c.sha256).0 same), es)))
                          (λ _.
                            Spec-bind (λ _. Any) Spec-any
                              λ _. Spec-pure _ (λ f d h wrong. absurd (cc wrong)))

    copy_delivered-Agrees :
        (source : SourceRead) → Spec Any (copy_delivered sha env n partial c source) Agrees Any
    unfolding copy_delivered
    copy_delivered-Agrees missing = Spec-throw _ (λ f d h. tt)
    copy_delivered-Agrees (fails_at b) =
        Spec-bind (λ _. Any) Spec-any
          λ i. Spec-bind (λ _. Any) Spec-any λ _. Spec-throw _ (λ f d h. tt)
    copy_delivered-Agrees (readable b) =
        Spec-bind (λ _. Any) Spec-any
          λ i.
            Spec-bind (λ _. Any) Spec-any
              λ loop. Spec-bind (λ _. Any) Spec-any λ _. compared loop.0 loop.1
      where
        unstable : ℕ → Text → Attempt
        unstable size h2 = record {
          result = attempt_source_unstable;
          h2 = h2;
          h3 = none;
          size = size;
        }

        compared :
            (size : ℕ) (fed : Bytes)
            → Spec Any
                (if not (size == c.size_bytes) || not (text_eq (sha.hexdigest fed) c.sha256)
                  then (do on_files (unlink partial); pure (unstable size (sha.hexdigest fed)))
                  else verify_landed sha env n partial c (sha.hexdigest fed) size)
                Agrees
                Any
        compared size fed =
            Spec-if (not (size == c.size_bytes) || not (text_eq (sha.hexdigest fed) c.sha256)) _ _
              (λ _.
                Spec-bind (λ _. Any) Spec-any
                  λ _. Spec-pure _ (λ f d h wrong. absurd (unstable_ne_ok wrong)))
              (λ e.
                verify_landed-Agrees (sha.hexdigest fed) size
                  (ground (arith, e, text_eq_iff (sha.hexdigest fed) c.sha256)) (ground (arith, e)))

    copy_and_verify_once-Agrees :
        (source_path : Text)
        → Spec Any (copy_and_verify_once sha env n source_path partial c) Agrees Any
    unfolding copy_and_verify_once
    copy_and_verify_once-Agrees source_path =
        Spec-bind (λ _. Any) Spec-any λ _. Spec-bind (λ _. Any) Spec-any copy_delivered-Agrees

  -- The digests of the copy, of the stream and of the destination, are the expected one.
  abbrev pub ThreeWay : CopyResult → Type 0
  ThreeWay r =
      (r.copy_stream_sha256 ≡ some c.sha256)
      × (r.destination_sha256 ≡ some c.sha256)
      × (r.bytes_written ≡ c.size_bytes)

  -- At most `limit` attempts; a verified result is recorded, and agrees unless nothing was copied.
  abbrev pub Reported : ℕ → CopyResult → Prop
  Reported limit r f d =
      (r.attempts ≤ limit)
      × (r.outcome ≡ Copier.verified → Recorded f d × ((r.attempts ≡ 0) ⊎ ThreeWay r))

  link_verified_object-Reported :
      (job_id root session_path : Text) (limit : ℕ)
      → Spec Any (link_verified_object job_id root c session_path) (Reported limit) Any
  unfolding link_verified_object
  link_verified_object-Reported job_id root session_path limit =
      Spec-bind (λ _. Any) Spec-any
        λ final.
          Spec-bind (λ _. Any) Spec-any
            λ there.
              Spec-if there _ _
                (λ _.
                  Spec-bind (λ _. Any) Spec-any
                    λ _.
                      Spec-bind (λ _. Recorded) (mark_verified-Recorded job_id final session_path)
                        λ _. Spec-pure _ (λ f d h. (omega arith, λ _. (h, inl refl))))
                (λ _. Spec-throw _ (λ f d h. tt))

  module _ (sha : Sha256) (env : Environment) (n : ℕ) (job_id source_path session_path : Text) where
    finalize-Reported :
        (partial final : Text) (a : Attempt) (k limit : ℕ)
        → a.result ≡ attempt_ok
        → k ≤ limit
        → Spec
            (Agrees a)
            (finalize sha env n job_id source_path session_path c partial final a k)
            (Reported limit)
            Any
    unfolding finalize
    finalize-Reported partial final a k limit e le =
        Spec-weaken (λ f d h. (tt, h e)) (λ r f d h. h) (λ f d h. h)
          (Spec-given {P = Any} _ λ agrees.
            Spec-bind (λ _. Any) Spec-any
              λ _.
                Spec-bind (λ _. Any) Spec-any
                  λ _.
                    Spec-bind (λ _. Any) Spec-any
                      λ _.
                        Spec-bind (λ _. Recorded) (mark_verified-Recorded job_id final session_path)
                          λ _.
                            Spec-pure _
                              (λ f d h. (le, λ _. (h, inr (ap some agrees.0, agrees.1, agrees.2)))))

    copy_rounds-Reported :
        (rounds k limit : ℕ) (partial final : Text) (last : AttemptResult) (h2 h3 : Option Text)
        → rounds + k ≤ limit
        → Spec Any
            (copy_rounds sha env n job_id source_path session_path c rounds partial final k last h2
              h3)
            (Reported limit)
            Any
    unfolding copy_rounds
    copy_rounds-Reported zero k limit partial final last h2 h3 le =
        Spec-bind (λ _. Any) Spec-any
          λ _.
            Spec-pure _
              (λ f d h. (omega (arith, le), λ wrong. absurd (failed_ne_verified last wrong)))
    copy_rounds-Reported (suc rounds) k limit partial final last h2 h3 le =
        Spec-bind Agrees (copy_and_verify_once-Agrees sha env n partial source_path) λ a.
          Spec-if (is_ok a.result) _ _
            (λ e.
              finalize-Reported partial final a (suc k) limit (ok_of_is_ok a.result e)
                (omega (arith, le)))
            (λ _.
              Spec-weaken (λ f d h. tt) (λ r f d h. h) (λ f d h. h)
                (copy_rounds-Reported rounds (suc k) limit partial final a.result (some a.h2) a.h3
                  (omega (arith, le))))

    copy_verify_finalize-Reported :
        (root : Text) (retries : ℕ)
        → Spec Any
            (copy_verify_finalize sha env n job_id source_path session_path c root retries)
            (Reported (suc retries))
            Any
    unfolding copy_verify_finalize
    copy_verify_finalize-Reported root retries =
        Spec-bind (λ _. Any) Spec-any
          λ final.
            Spec-bind (λ _. Any) Spec-any
              λ partial.
                Spec-bind (λ _. Any) Spec-any
                  λ there.
                    Spec-if there _ _
                      (λ _. link_verified_object-Reported job_id root session_path (suc retries))
                      (λ _.
                        copy_rounds-Reported (suc retries) 0 (suc retries) partial final
                          attempt_source_unstable none none (omega arith))

    -- When `copy_verify_finalize` returns, it made at most `retries + 1` attempts. If its result
    -- says verified, the manifest's look-up finds a verified object of the identity, and either no
    -- attempt was made, because the object was there, or the digest of the copied stream and that
    -- of the destination are the expected one and the number of written bytes is the expected
    -- size.
    pub copy_verify_finalize_reports :
        (root : Text) (retries : ℕ) (w w' : World) (r : CopyResult)
        → copy_verify_finalize sha env n job_id source_path session_path c root retries w
          ≡ (Effects.ok r, w')
        → (r.attempts ≤ suc retries)
          × (r.outcome ≡ Copier.verified
              → (has_verified_object c w'.db ≡ true) × ((r.attempts ≡ 0) ⊎ ThreeWay r))
    copy_verify_finalize_reports root retries w w' r e =
        subst (λ x. After (Reported (suc retries)) Any x) e
          ((copy_verify_finalize-Reported root retries).at w tt)
