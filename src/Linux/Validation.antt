-- ===== src/Linux/Validation.antt =====
-- linux/validation.py: the destination by its UUID, and the partitions that may be a source.
use pi_mobile_photobackup.Prelude.{
  ℕ, Text, codes, text_eq, Bool, true, false, not, ◌||◌, ◌&&◌, Option, none, some, List, [], ◌∷◌,
  ◌++◌, filter_p, any_p, map, if◌then◌else◌,
}
use pi_mobile_photobackup.Linux.Devices.{
  BlockDevice, columns, is_empty, flatten, flatten_devices, has_uuid,
}
pub mod Laws

pub data Reason : Type 0 where
  no_uuid_configured not_mounted mounted_read_only : Reason
  not_present shares_uuid : Text → Reason
  wrong_filesystem : Option Text → Text → Reason

pub record DestinationValidation : Type 0 where
  pub ok : Bool
  pub found : Option BlockDevice
  pub reasons : List Reason

abbrev pub required_destination_filesystem : Text
required_destination_filesystem = codes "ext4"

abbrev pub default_supported_source_filesystems : List Text
default_supported_source_filesystems = codes "vfat" ∷ codes "exfat" ∷ []

unfoldable pub reason_if : Bool → Reason → List Reason
reason_if b r = if b then r ∷ [] else []

unfoldable pub refused : Reason → DestinationValidation
refused r = record { ok = false; found = none; reasons = r ∷ [] }

-- `value == text`, where `value` may be `None`.
unfoldable pub is_text : Text → Option Text → Bool
unfolding text_eq
is_text t none = false
is_text t (some u) = text_eq u t

unfoldable pub is_none_left : List Reason → Bool
is_none_left [] = true
is_none_left (r ∷ rs) = false

-- What is wrong with the one filesystem that has the UUID.
unfoldable pub reasons_against : Text → BlockDevice → List Reason
unfolding reason_if is_text columns is_empty
reasons_against filesystem d =
    let c = columns d in
    reason_if (not (is_text filesystem c.fstype)) (wrong_filesystem c.fstype filesystem)
    ++ reason_if (is_empty c.mountpoint) not_mounted
    ++ reason_if c.read_only mounted_read_only

unfoldable pub validated : Text → Text → List BlockDevice → DestinationValidation
unfolding refused reasons_against is_none_left
validated uuid filesystem [] = refused (not_present uuid)
validated uuid filesystem (d ∷ []) =
    let reasons = reasons_against filesystem d in
    record { ok = is_none_left reasons; found = some d; reasons = reasons }
validated uuid filesystem (d ∷ e ∷ ds) = refused (shares_uuid uuid)

unfoldable pub validate_destination : List BlockDevice → Text → Text → DestinationValidation
unfolding refused validated flatten_devices has_uuid
validate_destination devices [] filesystem = refused no_uuid_configured
validate_destination devices (u ∷ us) filesystem =
    validated (u ∷ us) filesystem (filter_p (has_uuid (u ∷ us)) (flatten_devices devices))

-- `mountpoint.startswith("/boot/")`
unfoldable pub is_prefix : Text → Text → Bool
is_prefix [] t = true
is_prefix (x ∷ xs) [] = false
is_prefix (x ∷ xs) (y ∷ ys) = text_eq (x ∷ []) (y ∷ []) && is_prefix xs ys

unfoldable pub is_system_mount : Option Text → Bool
unfolding text_eq is_prefix is_empty
is_system_mount none = false
is_system_mount (some m) =
    if is_empty (some m)
    then false
    else text_eq m (codes "/") || (text_eq m (codes "/boot") || is_prefix (codes "/boot/") m)

-- The disk, or a partition of it, is mounted where the running system lives.
unfoldable pub is_system_disk : BlockDevice → Bool
unfolding is_system_mount flatten columns
is_system_disk disk = any_p (λ d. is_system_mount (columns d).mountpoint) (flatten disk)

unfoldable pub system_disk_names : List BlockDevice → List Text
unfolding is_system_disk
system_disk_names devices = map (λ d. (columns d).name) (filter_p is_system_disk devices)

-- `text in texts`
unfoldable pub is_in : List Text → Text → Bool
unfolding text_eq
is_in texts t = any_p (λ u. text_eq u t) texts

unfoldable pub is_supported : List Text → Option Text → Bool
unfolding is_in
is_supported supported none = false
is_supported supported (some fstype) = is_in supported fstype

unfoldable pub is_candidate : Text → List Text → BlockDevice → Bool
unfolding is_supported has_uuid columns
is_candidate destination supported d =
    is_supported supported (columns d).fstype && not (has_uuid destination d)

-- The loop over the disks, for the given names of system disks.
unfoldable pub candidates_of : List Text → Text → List Text → List BlockDevice → List BlockDevice
unfolding is_in columns is_candidate flatten
candidates_of system destination supported [] = []
candidates_of system destination supported (disk ∷ disks) =
    let rest = candidates_of system destination supported disks in
    if is_in system (columns disk).name
    then rest
    else filter_p (is_candidate destination supported) (flatten disk) ++ rest

unfoldable pub find_source_candidates : List BlockDevice → Text → List Text → List BlockDevice
unfolding system_disk_names candidates_of
find_source_candidates devices destination supported =
    candidates_of (system_disk_names devices) destination supported devices
