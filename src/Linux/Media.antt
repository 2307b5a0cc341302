-- ===== src/Linux/Media.antt =====
-- linux/media.py: the media manager. Each call is given the devices that the lister returned to it.
-- The dictionary of mounts is an association list, the set of ejected cards a list.
use pi_mobile_photobackup.Prelude.{
  ℕ, suc, Text, codes, text_eq, take, Bool, true, false, not, ◌&&◌, Option, none, some, List, [],
  ◌∷◌, ◌++◌, filter_p, map, length, if◌then◌else◌,
}
use pi_mobile_photobackup.Effects.{Result, ok, raise, Exec, pure, gets, ◌>>=◌, ◌>>◌}
use pi_mobile_photobackup.Linux.Devices.{BlockDevice, columns, or_text, is_empty, has_uuid}
use pi_mobile_photobackup.Linux.Validation.{
  find_source_candidates, is_in, DestinationValidation, validate_destination,
  required_destination_filesystem,
}
use pi_mobile_photobackup.Linux.Mounts.{SourceMount, MountService}
pub mod Calls
pub mod Ejected
pub mod Mounted
pub mod Tracked

pub data MediaState : Type 0 where
  no_source single_source multiple_sources : MediaState

-- A card to back up: where it is mounted, and its name.
pub record SourceRef : Type 0 where
  pub root : Text
  pub logical_name : Text

pub record MediaConfig : Type 0 where
  pub destination_uuid : Text
  pub mount_root : Text
  pub supported : List Text

pub record Media (S : Type 0) : Type 0 where
  pub system : S
  pub mounted : List (Text × SourceMount)
  pub selected_uuid : Option Text
  pub ejected : List Text

-- `a or name`
unfoldable pub or_name : Option Text → Text → Text
unfolding or_text
or_name o name = elim (or_text o none) [ none ↦ name | some t ↦ t ]

unfoldable pub default_name : BlockDevice → Text
unfolding or_text columns is_empty
default_name d =
    let c = columns d in
    elim (or_text c.label none) [
      | some label ↦ label
      | none ↦ elim (or_text c.uuid none) [
        | some uuid ↦ codes "CARD-" ++ take 8 uuid
        | none ↦ if is_empty (some c.name) then codes "CARD" else c.name
      ]
    ]

unfoldable pub device_key : BlockDevice → Text
unfolding or_name columns
device_key d = or_name (columns d).path (columns d).name

unfoldable pub identity_key : BlockDevice → Text
unfolding or_name or_text columns
identity_key d = or_name (or_text (columns d).uuid (columns d).path) (columns d).name

unfoldable pub raw_candidates : MediaConfig → List BlockDevice → List BlockDevice
unfolding find_source_candidates
raw_candidates c devices = find_source_candidates devices c.destination_uuid c.supported

-- `set &= present`
unfoldable pub still_present : List BlockDevice → List Text → List Text
unfolding is_in identity_key
still_present raw ejected = filter_p (is_in (map identity_key raw)) ejected

unfoldable pub not_ejected : List Text → List BlockDevice → List BlockDevice
unfolding is_in identity_key
not_ejected ejected raw = filter_p (λ d. not (is_in ejected (identity_key d))) raw

-- The loop of `eject`: how many cards are newly ejected, and all that are.
unfoldable pub mark_ejected : List BlockDevice → List Text → ℕ × List Text
unfolding is_in identity_key
mark_ejected [] ejected = (0, ejected)
mark_ejected (d ∷ ds) ejected =
    let known = is_in ejected (identity_key d) in
    let (n, all) = mark_ejected ds (if known then ejected else ejected ++ identity_key d ∷ []) in
    (if known then n else suc n, all)

unfoldable pub look_up_mount : Text → List (Text × SourceMount) → Option SourceMount
unfolding text_eq
look_up_mount key [] = none
look_up_mount key ((k, m) ∷ rest) =
    let found = look_up_mount key rest in if text_eq k key then some m else found

unfoldable pub remove_mount : Text → List (Text × SourceMount) → List (Text × SourceMount)
unfolding text_eq
remove_mount key mounts = filter_p (λ t. not (text_eq t.0 key)) mounts

-- `/` between the mount root and a name.
unfoldable pub join_path : Text → Text → Text
join_path root name = root ++ codes "/" ++ name

-- The first candidate with the selected UUID.
unfoldable pub find_selected : Text → List BlockDevice → Option BlockDevice
unfolding has_uuid
find_selected uuid [] = none
find_selected uuid (d ∷ ds) =
    let rest = find_selected uuid ds in if has_uuid uuid d then some d else rest

unfoldable pub select_device : Option Text → List BlockDevice → Option BlockDevice
unfolding find_selected
select_device selected [] = none
select_device selected (d ∷ []) = some d
select_device none (d ∷ e ∷ ds) = none
select_device (some uuid) (d ∷ e ∷ ds) = find_selected uuid (d ∷ e ∷ ds)

module _ {S : Type 0} (config : MediaConfig) where
  unfoldable pub source_candidates : List BlockDevice → Media S → List BlockDevice × Media S
  unfolding still_present not_ejected
  source_candidates devices m =
      let raw = raw_candidates config devices in
      let ejected = still_present raw m.ejected in
      (not_ejected ejected raw, record m { ejected = ejected })

  unfoldable pub awaiting_removal : List BlockDevice → Media S → Bool × Media S
  unfolding still_present
  awaiting_removal devices m =
      let ejected = still_present (raw_candidates config devices) m.ejected in
      (elim ejected [ [] ↦ false | k ∷ ks ↦ true ], record m { ejected = ejected })

  unfoldable pub media_state : List BlockDevice → Media S → MediaState × Media S
  unfolding source_candidates
  media_state devices m =
      let (candidates, m') = source_candidates devices m in
      (
        elim candidates [
          | [] ↦ no_source
          | d ∷ ds ↦ elim ds [ [] ↦ single_source | e ∷ es ↦ multiple_sources ]
        ],
        m',
      )

unfoldable pub destination : MediaConfig → List BlockDevice → DestinationValidation
unfolding validate_destination
destination config devices =
    validate_destination devices config.destination_uuid required_destination_filesystem

unfoldable pub select : {S : Type 0} → Text → Media S → Media S
select uuid m = record m { selected_uuid = some uuid }

-- A mount that was made is entered under the key of the device.
unfoldable pub entered :
    {S : Type 0} → Text → Media S → Result SourceMount × S → Result SourceMount × Media S
entered key m (ok mount, s) =
    (ok mount, record m { system = s; mounted = m.mounted ++ (key, mount) ∷ [] })
entered key m (raise e, s) = (raise e, record m { system = s })

module _ {S : Type 0} (service : MountService S) where
  -- A failed unmount is ignored.
  unfoldable pub unmount_key : Text → Media S → Media S
  unfolding look_up_mount remove_mount
  unmount_key key m = elim (look_up_mount key m.mounted) [
    | none ↦ m
    | some mount ↦ record m {
      system = (service.unmount_source mount.mount_point m.system).1;
      mounted = remove_mount key m.mounted;
    }
  ]

  unfoldable pub unmount_keys : List Text → Media S → Media S
  unfolding unmount_key
  unmount_keys [] m = m
  unmount_keys (k ∷ ks) m = unmount_keys ks (unmount_key k m)

  unfoldable pub eject_all : Media S → Media S
  unfolding unmount_keys
  eject_all m = unmount_keys (map (λ t. t.0) m.mounted) m

  unfoldable pub release_absent : List BlockDevice → Media S → Media S
  unfolding unmount_keys is_in device_key
  release_absent present m =
      unmount_keys
        (filter_p (λ k. not (is_in (map device_key present) k)) (map (λ t. t.0) m.mounted)) m

  module _ (config : MediaConfig) where
    unfoldable pub eject : List BlockDevice → Media S → ℕ × Media S
    unfolding mark_ejected eject_all
    eject devices m =
        let (newly, ejected) = mark_ejected (raw_candidates config devices) m.ejected in
        (newly, eject_all (record m { ejected = ejected }))

    -- The mount itself.
    unfoldable pub mount_device : BlockDevice → Exec (Media S) SourceMount
    unfolding entered device_key or_name or_text columns join_path
    mount_device d m =
        let c = columns d in
        let point = join_path config.mount_root (or_name c.uuid c.name) in
        entered (device_key d) m (service.mount_source (or_name c.path []) point c.fstype m.system)

    unfoldable pub ensure_mounted : BlockDevice → Exec (Media S) SourceMount
    unfolding mount_device look_up_mount device_key
    ensure_mounted d m = elim (look_up_mount (device_key d) m.mounted) [
      | some existing ↦ (ok existing, m)
      | none ↦ mount_device d m
    ]

    unfoldable pub source_of : Option BlockDevice → Exec (Media S) (Option SourceRef)
    unfolding ensure_mounted default_name pure ◌>>=◌
    source_of none = pure none
    source_of (some d) = do
      mount ← ensure_mounted d
      pure (some (record { root = mount.mount_point; logical_name = default_name d }))

    unfoldable pub current_source : List BlockDevice → Exec (Media S) (Option SourceRef)
    unfolding source_candidates release_absent select_device source_of
    current_source devices m =
        let (candidates, m') = source_candidates config devices m in
        let released = release_absent candidates m' in
        source_of (select_device released.selected_uuid candidates) released
