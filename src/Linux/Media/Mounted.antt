-- ===== src/Linux/Media/Mounted.antt =====
-- linux/media.py: the mounts that the media manager tracks, over a mount service that mounts
-- read-only, and the source that it returns.
use mathlib.Core.List.{Memᴰ}
use mathlib.Core.List.Memᴰ
use pi_mobile_photobackup.Prelude.{
  Text, true, Option, none, some, List, [], ◌∷◌, ◌≡◌, refl, sym, ap, subst, ◌∙◌, inl, inr,
  Bool-cases, Option-cases, arith,
}
use pi_mobile_photobackup.Effects.{Result, ok, raise, Exec, pure, continue, ◌>>=◌}
use pi_mobile_photobackup.Effects.Inversion.{>>=-eq-ok}
use pi_mobile_photobackup.Linux.Devices.{BlockDevice, has_uuid}
use pi_mobile_photobackup.Linux.Mounts.{
  SourceMount, MountService, Commands, mount_source_read_only, linux_mount_service,
}
use pi_mobile_photobackup.Linux.Mounts.Protection.{mount_source_read_only-IsSeenReadOnly}
use pi_mobile_photobackup.Linux.Media.{
  Media, MediaConfig, SourceRef, device_key, default_name, look_up_mount, release_absent,
  source_candidates, entered, mount_device, ensure_mounted, select_device, find_selected, source_of,
  current_source,
}
use pi_mobile_photobackup.Linux.Media.Tracked.{look_up_mount-some, Memᴰ-release_absent}

-- A mount service that mounts nothing that can be written to.
pub record IsReadOnlyService {S : Type 0} (service : MountService S) : Type 0 where
  pub mounts_read_only :
      (device point : Text) (fstype : Option Text) (s : S) (mount : SourceMount)
      → (service.mount_source device point fstype s).0 ≡ ok mount
      → mount.mount_read_only ≡ true

pub linux_mount_service-IsReadOnlyService :
    {S : Type 0} (commands : Commands S) → IsReadOnlyService (linux_mount_service commands)
unfolding linux_mount_service
linux_mount_service-IsReadOnlyService commands = record {
  mounts_read_only = λ device point fstype s mount h.
      let end = (mount_source_read_only commands device point fstype s).1 in
      (mount_source_read_only-IsSeenReadOnly commands device point fstype s end mount
        (λ i. (h i, end))).2;
}

-- Every tracked mount is read-only.
abbrev pub IsProtected : {S : Type 0} → Media S → Type 0
IsProtected m =
    (k : Text) (mount : SourceMount) → Memᴰ (k, mount) m.mounted → mount.mount_read_only ≡ true

-- A source is the root of a tracked, read-only mount of a candidate, under the candidate's name.
pub record IsSafeSource {S : Type 0} (candidates : List BlockDevice) (source : SourceRef)
    (m : Media S) : Type 0 where
  pub card : BlockDevice
  pub mount : SourceMount
  pub candidate : Memᴰ card candidates
  pub tracked : Memᴰ (device_key card, mount) m.mounted
  pub read_only : mount.mount_read_only ≡ true
  pub root : source.root ≡ mount.mount_point
  pub named : source.logical_name ≡ default_name card

find_selected-Memᴰ :
    (uuid : Text) (ds : List BlockDevice) (d : BlockDevice)
    → find_selected uuid ds ≡ some d
    → Memᴰ d ds
unfolding find_selected
find_selected-Memᴰ uuid [] d h = cc
find_selected-Memᴰ uuid (e ∷ ds) d h = elim (Bool-cases (has_uuid uuid e)) [
  | inl same ↦ Memᴰ.head (ground (arith, same, h))
  | inr other ↦ Memᴰ.tail (find_selected-Memᴰ uuid ds d (ground (arith, other, h)))
]

select_device-Memᴰ :
    (selected : Option Text) (ds : List BlockDevice) (d : BlockDevice)
    → select_device selected ds ≡ some d
    → Memᴰ d ds
unfolding select_device
select_device-Memᴰ selected [] d h = cc
select_device-Memᴰ selected (e ∷ []) d h = Memᴰ.head (cc)
select_device-Memᴰ none (e ∷ f ∷ ds) d h = cc
select_device-Memᴰ (some uuid) (e ∷ f ∷ ds) d h = find_selected-Memᴰ uuid (e ∷ f ∷ ds) d h

-- An action keeps the mounts read-only, and the mount that it returns is tracked.
record Mounts {S : Type 0} (key : Text) (end : Result SourceMount × Media S) : Type 0 where
  protected : IsProtected end.1
  tracked : (mount : SourceMount) → end.0 ≡ ok mount → Memᴰ (key, mount) end.1.mounted

entered-Mounts :
    {S : Type 0} (key : Text) (m : Media S) (r : Result SourceMount × S)
    → IsProtected m
    → ((mount : SourceMount) → r.0 ≡ ok mount → mount.mount_read_only ≡ true)
    → Mounts key (entered key m r)
unfolding entered
entered-Mounts key m (ok mount, s) safe read_only = record {
  protected = λ k x within. elim (Memᴰ.append_cases m.mounted within) [
    | inl before ↦ safe k x before
    | inr last ↦
        read_only x (ap (λ (t : Text × SourceMount). ok t.1) (sym (Memᴰ.eq_of_singleton last)))
  ];
  tracked =
      λ x e. Memᴰ.append_right m.mounted (Memᴰ.head (ap (λ (y : SourceMount). (key, y)) (cc e)));
}
entered-Mounts key m (raise e, s) safe read_only = record { protected = safe; tracked = λ x h. cc }

module _ {S : Type 0} (service : MountService S) (sound : IsReadOnlyService service)
    (config : MediaConfig) where
  ensure_mounted-Mounts :
      (d : BlockDevice) (m : Media S)
      → IsProtected m
      → Mounts (device_key d) (ensure_mounted service config d m)
  unfolding ensure_mounted mount_device
  ensure_mounted-Mounts d m safe = elim (Option-cases (look_up_mount (device_key d) m.mounted)) [
    | inl absent ↦
        rw (absent, ensure_mounted)
          (entered-Mounts (device_key d) m _ safe
            (λ mount h. sound.mounts_read_only _ _ _ m.system mount h))
    | inr t ↦
        rw (t.1, ensure_mounted)
          (record {
            protected = safe;
            tracked =
                λ mount h. look_up_mount-some (device_key d) m.mounted mount (t.1 ∙ ap some (cc h));
          })
  ]

  source_of-IsSafeSource :
      (o : Option BlockDevice) (m : Media S) (source : SourceRef) (m' : Media S)
      → IsProtected m
      → source_of service config o m ≡ (ok (some source), m')
      → (d : BlockDevice) × (mount : SourceMount) × (o ≡ some d)
        × Memᴰ (device_key d, mount) m'.mounted
        × (mount.mount_read_only ≡ true)
        × (source.root ≡ mount.mount_point)
        × (source.logical_name ≡ default_name d)
  unfolding source_of pure
  source_of-IsSafeSource none m source m' safe h = cc
  source_of-IsSafeSource (some d) m source m' safe h =
      let t = >>=-eq-ok (ensure_mounted service config d) _ m h in
      let mount = t.0 in
      let kept = ensure_mounted-Mounts d m safe in
      let end : (ensure_mounted service config d m).0 ≡ ok mount =
        ap (λ (x : Result SourceMount × Media S). x.0) t.2 in
      let same : (ensure_mounted service config d m).1 ≡ m' =
        ap (λ (x : Result SourceMount × Media S). x.1) t.2 ∙ cc t.3 in
      let within =
        subst (λ (x : Media S). Memᴰ (device_key d, mount) x.mounted) same
          (kept.tracked mount end) in
      let safe' : IsProtected m' = subst IsProtected same kept.protected in
      (d, mount, refl, within, safe' (device_key d) mount within, cc t.3, cc t.3)

  source_of-IsProtected :
      (o : Option BlockDevice) (m : Media S)
      → IsProtected m
      → IsProtected (source_of service config o m).1
  unfolding source_of pure ◌>>=◌
  source_of-IsProtected none m safe = safe
  source_of-IsProtected (some d) m safe =
      through
        (λ mount. pure (some (record { root = mount.mount_point; logical_name = default_name d })))
        (λ mount m'. refl) (ensure_mounted service config d m)
        (ensure_mounted-Mounts d m safe).protected
    where
      through :
          (f : SourceMount → Exec (Media S) (Option SourceRef))
          → ((mount : SourceMount) (m' : Media S) → (f mount m').1 ≡ m')
          → (r : Result SourceMount × Media S) → IsProtected r.1
          → IsProtected (continue r f).1
      through f same (ok mount, m') safe = subst IsProtected (sym (same mount m')) safe
      through f same (raise e, m') safe = safe

  release_absent-IsProtected :
      (present : List BlockDevice) (m : Media S)
      → IsProtected m
      → IsProtected (release_absent service present m)
  release_absent-IsProtected present m safe k mount within =
      safe k mount (Memᴰ-release_absent service present k mount m within).0

  pub current_source-IsProtected :
      (devices : List BlockDevice) (m : Media S)
      → IsProtected m
      → IsProtected (current_source service config devices m).1
  unfolding current_source source_candidates
  current_source-IsProtected devices m safe =
      let c = source_candidates config devices m in
      let released = release_absent service c.0 c.1 in
      source_of-IsProtected (select_device released.selected_uuid c.0) released
        (release_absent-IsProtected c.0 c.1 safe)

  pub current_source-IsSafeSource :
      (devices : List BlockDevice) (m m' : Media S) (source : SourceRef)
      → IsProtected m
      → current_source service config devices m ≡ (ok (some source), m')
      → IsSafeSource (source_candidates config devices m).0 source m'
  unfolding current_source
  current_source-IsSafeSource devices m m' source safe h =
      let candidates = (source_candidates config devices m).0 in
      let released = release_absent service candidates (source_candidates config devices m).1 in
      let t =
        source_of-IsSafeSource (select_device released.selected_uuid candidates) released source m'
          (release_absent-IsProtected candidates _ (unfold source_candidates in safe)) h in
      record {
        card = t.0;
        mount = t.1;
        candidate = select_device-Memᴰ released.selected_uuid candidates t.0 t.2;
        tracked = t.3;
        read_only = t.4;
        root = t.5;
        named = t.6;
      }
