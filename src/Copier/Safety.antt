-- ===== src/Copier/Safety.antt =====
-- What `copy_verify_finalize` promises of the object store, in every run: also in those where a
-- read fails, the disk does not keep what was written, or the power fails.
use pi_mobile_photobackup.Prelude.{ℕ, suc, ◌≡◌, refl, Text, none, some}
use pi_mobile_photobackup.Identity.{Sha256, ContentIdentity}
use pi_mobile_photobackup.ObjectStore.{object_path, partial_path}
use pi_mobile_photobackup.ObjectStore.Paths.{object_path-ne-partial_path}
use pi_mobile_photobackup.Files.{inode, blob}
use pi_mobile_photobackup.Files.Laws.{inode_of_exists}
use pi_mobile_photobackup.World.{World, Environment}
use pi_mobile_photobackup.World.Rules.{
  Prop, After, Spec, Spec-gets, Spec-require, Spec-if, Spec-bind, Spec-weaken, Spec-given,
}
use pi_mobile_photobackup.World.Store.{IsDigest, IsObjectPath, Sound}
use pi_mobile_photobackup.Copier
use pi_mobile_photobackup.Copier.{
  CopyResult, copy_rounds, copy_verify_finalize, link_verified_object, attempt_source_unstable,
}
use pi_mobile_photobackup.Copier.Crash.{Placed, link_verified_object_lem, copy_rounds_lem}

-- No partial path is an object path.
pub partial_path-IsObjectPath :
    (root s p : Text) → IsDigest s → partial_path root s ≡ some p → IsObjectPath root p → ⊥
partial_path-IsObjectPath root s p d e object =
    let (t, dt, et) = object in
    object_path-ne-partial_path root t s p p dt.long d.long dt.no_dot d.no_dot et e refl

-- The object that a verified result names is in the store, and its content has the digest asked for.
abbrev pub Stored : Sha256 → Text → ContentIdentity → CopyResult → Prop
Stored sha root c result f d =
    Sound sha root f d
    × (result.outcome ≡ Copier.verified
        → (p : Text) × (i : ℕ) × (object_path root c.sha256 ≡ some p)
          × (inode p f ≡ some i)
          × (sha.hexdigest (blob i f) ≡ c.sha256))

module _ (sha : Sha256) (env : Environment) (chunk_bytes : ℕ)
    (root job_id source_path session_path : Text) (c : ContentIdentity) (digest : IsDigest c.sha256)
    (not_session : IsObjectPath root session_path → ⊥) where
  Stored_of_Placed :
      (r : CopyResult) {f : _} {d : _} → Placed sha root c r f d → Stored sha root c r f d
  Stored_of_Placed r {f = f} h = (
    h.0,
    λ e.
        let (p, at, there) = h.1 e in
        let (i, name) = inode_of_exists p f there in
        (p, i, at, name, h.0.store.stored c.sha256 p i digest at name),
  )

  pub copy_verify_finalize_lem :
      (retries : ℕ)
      → Spec
          (Sound sha root)
          (copy_verify_finalize sha env chunk_bytes job_id source_path session_path c root retries)
          (Stored sha root c)
          (Sound sha root)
  unfolding copy_verify_finalize
  copy_verify_finalize_lem retries =
      Spec-weaken (λ f d h. h) (λ r f d h. Stored_of_Placed r h) (λ f d h. h)
        (Spec-bind (λ final f d. Sound sha root f d × (object_path root c.sha256 ≡ some final))
          (Spec-require _ _ (λ f d h. h) (λ final e f d h. (h, e)))
          λ final. Spec-given _ λ place.
            Spec-bind
              (λ partial f d. Sound sha root f d × (partial_path root c.sha256 ≡ some partial))
              (Spec-require _ _ (λ f d h. h) (λ partial e f d h. (h, e)))
              λ partial. Spec-given _ λ beside.
                Spec-bind (λ _. Sound sha root) (Spec-gets _ (λ w h. h))
                  λ there.
                    Spec-if there _ _
                      (λ _.
                        link_verified_object_lem sha root job_id c session_path digest not_session)
                      (λ _.
                        copy_rounds_lem sha root env chunk_bytes partial
                          (partial_path-IsObjectPath root c.sha256 partial digest beside) c job_id
                          source_path session_path not_session digest final place (suc retries) 0
                          attempt_source_unstable none none))

  -- Let the object store be sound: whatever stands at the object path of a digest has that digest,
  -- every name refers to an inode already given out, and every row that says VERIFIED names an
  -- object path at which a file stands. Let the expected digest have the form of one, and the
  -- session path be no object path. Then `copy_verify_finalize` leaves the object store sound,
  -- whatever the card delivers at each opening, whatever of the written bytes the device keeps,
  -- with which exception it ends, and after whichever effect the power fails. If it returns a
  -- result that says verified, a file with the expected digest stands at the object path.
  pub copy_verify_finalize-crash_safe :
      (retries : ℕ) (w : World)
      → Sound sha root w.files w.db
      → After (Stored sha root c) (Sound sha root) (
          copy_verify_finalize sha env chunk_bytes job_id source_path session_path c root retries w)
  copy_verify_finalize-crash_safe retries w h = (copy_verify_finalize_lem retries).at w h
