-- ===== src/Recovery/Partials.antt =====
-- What a recovery leaves: no partial copies, and a report that counts every pending object.
use pi_mobile_photobackup.Prelude.{
  ℕ, suc, ◌+◌, ◌≡◌, refl, subst, ap, Text, Bool, true, false, ◌||◌, Option, none, some, List, [],
  ◌∷◌, arith, map, filter_p, length, text_eq, text_eq_iff, ◌⊎◌, inl, inr, Bool-cases, if◌then◌else◌,
}
use pi_mobile_photobackup.Identity.{Sha256}
use pi_mobile_photobackup.Effects
use pi_mobile_photobackup.Effects.{pure, gets, ◌>>=◌, ◌>>◌}
use pi_mobile_photobackup.Files.{Files, find_name, unlink, inode, exists}
use pi_mobile_photobackup.Files.Laws.{inode-unlink}
use pi_mobile_photobackup.Manifest.{Manifest, PendingObject, list_pending_finalize}
use pi_mobile_photobackup.World.{World}
use pi_mobile_photobackup.World.Rules.{
  Prop, After, Spec, Spec-pure, Spec-gets, Spec-bind, Spec-weaken, Spec-given, Spec-any,
  Spec-on_files,
}
use pi_mobile_photobackup.Recovery.{
  RecoveryReport, is_partial_under, remove_partials, remove_orphan_partials, reconcile_all,
  recover_destination,
}

abbrev Any : Prop
Any _ _ = Unit {0}

abbrev text_in : Text → List Text → Bool
text_in q [] = false
text_in q (p ∷ ps) = text_eq p q || text_in q ps

text_in_of_find :
    (test : Text → Bool) (q : Text) (i : ℕ) (ns : List (Text × ℕ))
    → test q ≡ true
    → find_name q ns ≡ some i
    → text_in q (filter_p test (map (λ n. n.0) ns)) ≡ true
unfolding find_name
text_in_of_find test q i [] t h = absurd (cc h)
text_in_of_find test q i ((p, j) ∷ ns) t h =
    ground (arith, text_in_of_find test q i ns t, h, text_eq_iff p q, t)

module _ (root : Text) where
  -- Every partial copy that is there is on the list.
  abbrev Covered : List Text → Prop
  Covered ps f d =
      (q : Text) → is_partial_under root q ≡ true → (inode q f ≡ none) ⊎ (text_in q ps ≡ true)

  Covered-unlink :
      (p : Text) (ps : List Text) (f : Files) (d : Manifest)
      → Covered (p ∷ ps) f d
      → Covered ps (unlink p f) d
  Covered-unlink p ps f d h q partial = elim (h q partial) [
    | inl gone ↦ inl (ground (arith, inode-unlink p q f, gone))
    | inr listed ↦ elim (Bool-cases (text_eq p q)) [
      | inl same ↦ inl (ground (arith, inode-unlink p q f, same))
      | inr other ↦ inr (ground (arith, listed, other))
    ]
  ]

  abbrev NoPartials : Prop
  NoPartials f d = (q : Text) → is_partial_under root q ≡ true → exists q f ≡ false

  NoPartials_of_Covered : (f : Files) (d : Manifest) → Covered [] f d → NoPartials f d
  unfolding exists
  NoPartials_of_Covered f d h q partial = elim (h q partial) [
    | inl gone ↦ rw gone refl
    | inr listed ↦ absurd (cc listed)
  ]

  remove_partials_lem :
      (ps : List Text) (n : ℕ) → Spec (Covered ps) (remove_partials ps n) (λ _. NoPartials) Any
  unfolding remove_partials
  remove_partials_lem [] n = Spec-pure _ NoPartials_of_Covered
  remove_partials_lem (p ∷ ps) n =
      Spec-bind (λ _. Covered ps) (Spec-on_files _ (λ f d h. tt) (Covered-unlink p ps))
        λ _. remove_partials_lem ps (suc n)

  remove_orphan_partials_lem : Spec Any (remove_orphan_partials root) (λ _. NoPartials) Any
  unfolding remove_orphan_partials
  remove_orphan_partials_lem =
      Spec-bind Covered (Spec-gets _ (λ w h q partial. by w.files q partial (inode q w.files) refl))
        λ ps. remove_partials_lem ps 0
    where
      by :
          (f : Files) (q : Text)
          → is_partial_under root q ≡ true
          → (o : Option ℕ) → inode q f ≡ o
          → (inode q f ≡ none)
            ⊎ (text_in q (filter_p (is_partial_under root) (map (λ n. n.0) f.names)) ≡ true)
      by f q partial none e = inl e
      by f q partial (some i) e =
          inr (text_in_of_find (is_partial_under root) q i f.names partial e)

  module _ (sha : Sha256) (chunk_bytes : ℕ) where
    reconcile_all_lem :
        (ps : List PendingObject) (a b : ℕ)
        → Spec Any
            (reconcile_all sha chunk_bytes root ps a b)
            (λ r _ _. r.0 + r.1 ≡ a + b + length ps)
            Any
    unfolding reconcile_all
    reconcile_all_lem [] a b = Spec-pure _ (λ _ _ _. omega arith)
    reconcile_all_lem (p ∷ ps) a b =
        Spec-bind (λ _. Any) Spec-any
          λ proved.
            Spec-weaken (λ _ _ h. h) (λ r _ _ h. ground (arith, h)) (λ _ _ h. h)
              (reconcile_all_lem ps (if proved then suc a else a) (if proved then b else suc b))

    recover_destination-Spec :
        (pending : List PendingObject)
        → Spec
            (λ f d. list_pending_finalize d ≡ pending)
            (recover_destination sha chunk_bytes root)
            (λ report f d. NoPartials f d × (report.finalized + report.discarded ≡ length pending))
            Any
    unfolding recover_destination
    recover_destination-Spec pending =
        Spec-bind (λ ps f d. Any f d × (ps ≡ pending)) (Spec-gets _ (λ w h. (tt, h)))
          λ ps. Spec-given _ λ same.
            Spec-bind (λ r f d. Any f d × (r.0 + r.1 ≡ length pending))
              (Spec-weaken {Q = λ r _ _. r.0 + r.1 ≡ 0 + 0 + length ps} (λ _ _ h. h)
                (λ r _ _ h. (tt, omega (arith, h, ap length same))) (λ _ _ h. h)
                (reconcile_all_lem ps 0 0))
              λ r. Spec-given _ λ counted.
                Spec-bind (λ _. NoPartials) remove_orphan_partials_lem
                  λ orphans. Spec-pure _ (λ f d h. (h, counted))

    -- When a recovery returns, no partial copy is left under the object store's root, and the
    -- objects that it reports as finalized or discarded are as many as were pending.
    pub recover_destination_complete :
        (w w' : World) (report : RecoveryReport)
        → recover_destination sha chunk_bytes root w ≡ (Effects.ok report, w')
        → ((q : Text) → is_partial_under root q ≡ true → exists q w'.files ≡ false)
          × (report.finalized + report.discarded ≡ length (list_pending_finalize w.db))
    recover_destination_complete w w' report e =
        subst
          (λ x.
            After
              (λ report f d.
                NoPartials f d
                × (report.finalized + report.discarded ≡ length (list_pending_finalize w.db)))
              Any x)
          e ((recover_destination-Spec (list_pending_finalize w.db)).at w refl)
