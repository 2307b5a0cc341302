-- ===== src/Linux/Media/Ejected.antt =====
-- linux/media.py: when an ejected card is hidden, and when it is offered again.
use mathlib.Core.List.{Memᴰ}
use mathlib.Core.List.Memᴰ
use pi_mobile_photobackup.Prelude.{
  Text, Bool, not, Option, none, some, List, [], ◌∷◌, ◌++◌, filter_p, map, All, ◌≡◌, ◌≢◌, ◌↔◌, refl,
  sym, ap, subst, ◌∙◌, inl, inr, Bool-cases, arith,
}
use pi_mobile_photobackup.Prelude.Members.{Memᴰ-filter_p, Memᴰ-map}
use pi_mobile_photobackup.Effects.{pure, ◌>>=◌}
use pi_mobile_photobackup.Linux.Devices.{BlockDevice}
use pi_mobile_photobackup.Linux.Validation.{is_in}
use pi_mobile_photobackup.Linux.Validation.Laws.{is_in-Memᴰ}
use pi_mobile_photobackup.Linux.Mounts.{SourceMount, MountService}
use pi_mobile_photobackup.Linux.Media.{
  Media, MediaConfig, device_key, identity_key, raw_candidates, still_present, not_ejected,
  mark_ejected, entered, mount_device, unmount_key, unmount_keys, eject_all, release_absent,
  ensure_mounted, source_of, select_device, source_candidates, awaiting_removal, media_state, eject,
  select, current_source,
}
use pi_mobile_photobackup.Linux.Media.Calls.{
  MediaCall, lists, awaits, counts, ejects, looks_for_source, selects, serve, serve_all,
}

-- The keys of the cards that are there.
abbrev pub keys : MediaConfig → List BlockDevice → List Text
keys config devices = map identity_key (raw_candidates config devices)

-- The card with the key is there whenever the call looks.
abbrev pub SeesCard : MediaConfig → Text → MediaCall → Type 0
SeesCard config k (lists devices) = Memᴰ k (keys config devices)
SeesCard config k (awaits devices) = Memᴰ k (keys config devices)
SeesCard config k (counts devices) = Memᴰ k (keys config devices)
SeesCard config k (ejects devices) = Memᴰ k (keys config devices)
SeesCard config k (looks_for_source devices) = Memᴰ k (keys config devices)
SeesCard config k (selects uuid) = Unit

Memᴰ-still_present :
    (raw : List BlockDevice) (ejected : List Text) (k : Text)
    → Memᴰ k (still_present raw ejected) ↔ (Memᴰ k ejected × Memᴰ k (map identity_key raw))
unfolding still_present
Memᴰ-still_present raw ejected k =
    let present = map identity_key raw in
    let iff = Memᴰ-filter_p (is_in present) k ejected in
    (
      λ m. let t = iff.0 m in (t.0, (is_in-Memᴰ present k).0 t.1),
      λ t. iff.1 (t.0, (is_in-Memᴰ present k).1 t.1),
    )

Memᴰ-not_ejected :
    (ejected : List Text) (raw : List BlockDevice) (d : BlockDevice)
    → Memᴰ d (not_ejected ejected raw) ↔ (Memᴰ d raw × (¬ Memᴰ (identity_key d) ejected))
unfolding not_ejected
Memᴰ-not_ejected ejected raw d =
    let shown : BlockDevice → Bool = λ e. not (is_in ejected (identity_key e)) in
    let iff = Memᴰ-filter_p shown d raw in
    (
      λ m.
          let t = iff.0 m in
          (
            t.0,
            λ gone. let g = (is_in-Memᴰ ejected (identity_key d)).1 gone in ground (arith, g, t.1),
          ),
      λ t. iff.1 (
        t.0,
        elim (Bool-cases (is_in ejected (identity_key d))) [
          | inl gone ↦ absurd (t.1 ((is_in-Memᴰ ejected (identity_key d)).0 gone))
          | inr here ↦ ap not here
        ],
      ),
    )

mark_ejected-keeps :
    (raw : List BlockDevice) (ejected : List Text) (k : Text)
    → Memᴰ k ejected
    → Memᴰ k (mark_ejected raw ejected).1
unfolding mark_ejected
mark_ejected-keeps [] ejected k m = m
mark_ejected-keeps (d ∷ ds) ejected k m = elim (Bool-cases (is_in ejected (identity_key d))) [
  | inl known ↦ rw known (mark_ejected-keeps ds ejected k m)
  | inr new ↦
      rw new (mark_ejected-keeps ds (ejected ++ identity_key d ∷ []) k (Memᴰ.append_left _ m))
]

mark_ejected-marks :
    (raw : List BlockDevice) (ejected : List Text) (d : BlockDevice)
    → Memᴰ d raw
    → Memᴰ (identity_key d) (mark_ejected raw ejected).1
unfolding mark_ejected
mark_ejected-marks [] ejected d m = absurd (Memᴰ.not-nil m)
mark_ejected-marks (e ∷ ds) ejected d m = elim (Memᴰ.cases_cons m) [
  | inl same ↦ elim (Bool-cases (is_in ejected (identity_key e))) [
    | inl known ↦
        rw (same, known)
          (mark_ejected-keeps ds ejected (identity_key e)
            ((is_in-Memᴰ ejected (identity_key e)).0 known))
    | inr new ↦
        rw (same, new)
          (mark_ejected-keeps ds (ejected ++ identity_key e ∷ []) (identity_key e)
            (Memᴰ.append_right ejected (Memᴰ.head refl)))
  ]
  | inr later ↦ mark_ejected-marks ds _ d later
]

module _ {S : Type 0} (config : MediaConfig) where
  -- When the candidates are listed while a card is away, and the card is there when they are
  -- listed next, it is offered, whether it had been ejected before or not.
  pub removed-returns :
      (gone now : List BlockDevice) (d : BlockDevice) (m : Media S)
      → ¬ Memᴰ (identity_key d) (keys config gone)
      → Memᴰ d (raw_candidates config now)
      → Memᴰ d (source_candidates config now (source_candidates config gone m).1).0
  unfolding source_candidates
  removed-returns gone now d m away back =
      let left = still_present (raw_candidates config gone) m.ejected in
      let raw = raw_candidates config now in
      (Memᴰ-not_ejected (still_present raw left) raw d).1 (
        back,
        λ marked.
            let t = (Memᴰ-still_present raw left (identity_key d)).0 marked in
            away
              ((Memᴰ-still_present (raw_candidates config gone) m.ejected (identity_key d)).0
                t.0).1,
      )

module _ {S : Type 0} (service : MountService S) where
  unmount_key-ejected : (key : Text) (m : Media S) → (unmount_key service key m).ejected ≡ m.ejected
  unfolding unmount_key
  unmount_key-ejected key m = ground arith

  unmount_keys-ejected :
      (ks : List Text) (m : Media S) → (unmount_keys service ks m).ejected ≡ m.ejected
  unfolding unmount_keys
  unmount_keys-ejected [] m = refl
  unmount_keys-ejected (k ∷ ks) m =
      unmount_keys-ejected ks (unmount_key service k m) ∙ unmount_key-ejected k m

  eject_all-ejected : (m : Media S) → (eject_all service m).ejected ≡ m.ejected
  unfolding eject_all
  eject_all-ejected m = unmount_keys-ejected (map (λ (t : Text × SourceMount). t.0) m.mounted) m

  release_absent-ejected :
      (present : List BlockDevice) (m : Media S)
      → (release_absent service present m).ejected ≡ m.ejected
  unfolding release_absent
  release_absent-ejected present m =
      unmount_keys-ejected
        (filter_p (λ k. not (is_in (map device_key present) k))
          (map (λ (t : Text × SourceMount). t.0) m.mounted))
        m

  module _ (config : MediaConfig) where
    mount_device-ejected :
        (d : BlockDevice) (m : Media S) → (mount_device service config d m).1.ejected ≡ m.ejected
    unfolding mount_device entered
    mount_device-ejected d m = ground arith

    ensure_mounted-ejected :
        (d : BlockDevice) (m : Media S) → (ensure_mounted service config d m).1.ejected ≡ m.ejected
    unfolding ensure_mounted
    ensure_mounted-ejected d m = ground (arith, mount_device-ejected d m)

    source_of-ejected :
        (o : Option BlockDevice) (m : Media S)
        → (source_of service config o m).1.ejected ≡ m.ejected
    unfolding source_of pure ◌>>=◌
    source_of-ejected none m = refl
    source_of-ejected (some d) m = ground (arith, ensure_mounted-ejected d m)

    current_source-ejected :
        (devices : List BlockDevice) (m : Media S)
        → (current_source service config devices m).1.ejected
          ≡ still_present (raw_candidates config devices) m.ejected
    unfolding current_source source_candidates
    current_source-ejected devices m =
        let c = source_candidates config devices m in
        let released = release_absent service c.0 c.1 in
        source_of-ejected (select_device released.selected_uuid c.0) released
        ∙ release_absent-ejected c.0 c.1

    serve-ejected :
        (k : Text) (c : MediaCall) (m : Media S)
        → SeesCard config k c
        → Memᴰ k m.ejected
        → Memᴰ k (serve service config c m).ejected
    unfolding source_candidates awaiting_removal media_state eject select
    serve-ejected k (lists devices) m sees gone = (Memᴰ-still_present _ _ k).1 (gone, sees)
    serve-ejected k (awaits devices) m sees gone = (Memᴰ-still_present _ _ k).1 (gone, sees)
    serve-ejected k (counts devices) m sees gone = (Memᴰ-still_present _ _ k).1 (gone, sees)
    serve-ejected k (ejects devices) m sees gone =
        rw (eject_all-ejected _)
          (mark_ejected-keeps (raw_candidates config devices) m.ejected k gone)
    serve-ejected k (looks_for_source devices) m sees gone =
        rw (current_source-ejected devices m) ((Memᴰ-still_present _ _ k).1 (gone, sees))
    serve-ejected k (selects uuid) m sees gone = gone

    serve_all-ejected :
        (k : Text) (cs : List MediaCall) (m : Media S)
        → All (SeesCard config k) cs
        → Memᴰ k m.ejected
        → Memᴰ k (serve_all service config cs m).ejected
    serve_all-ejected k [] m sees gone = gone
    serve_all-ejected k (c ∷ cs) m sees gone =
        serve_all-ejected k cs (serve service config c m) sees.1 (serve-ejected k c m sees.0 gone)

    -- When a card is there at an ejection, and is still there at every later call that looks at
    -- the devices, then no candidate that the media manager offers after these calls has the
    -- identity of this card.
    pub eject-hides :
        (before now : List BlockDevice) (d e : BlockDevice) (cs : List MediaCall) (m : Media S)
        → Memᴰ d (raw_candidates config before)
        → All (SeesCard config (identity_key d)) cs
        → Memᴰ e
            (source_candidates config now
              (serve_all service config cs (eject service config before m).1)).0
        → identity_key e ≢ identity_key d
    unfolding source_candidates eject
    eject-hides before now d e cs m was_there stays offered same =
        let after = serve_all service config cs (eject service config before m).1 in
        let raw = raw_candidates config now in
        let marked : Memᴰ (identity_key d) (eject service config before m).1.ejected =
          rw (eject_all-ejected _)
            (mark_ejected-marks (raw_candidates config before) m.ejected d was_there) in
        let gone = serve_all-ejected (identity_key d) cs _ stays marked in
        let t = (Memᴰ-not_ejected (still_present raw after.ejected) raw e).0 offered in
        let key : Memᴰ (identity_key e) (map identity_key raw) =
          (Memᴰ-map identity_key (identity_key e) raw).1 (e, t.0, refl) in
        t.1 (
          (Memᴰ-still_present raw after.ejected (identity_key e)).1
            (subst (λ k. Memᴰ k after.ejected) (sym same) gone, key))
