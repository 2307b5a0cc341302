-- ===== src/Linux/Devices.antt =====
-- linux/devices.py: block devices as trees, their enrichment by blkid, and the flattened list.
use pi_mobile_photobackup.Prelude.{
  Text, codes, text_eq, Bool, true, false, ◌||◌, Option, none, some, List, [], ◌∷◌, ◌++◌, filter_p,
  if◌then◌else◌,
}
use pi_mobile_photobackup.Prelude.Int.{ℤ}

-- A device's own columns.
pub record Columns : Type 0 where
  pub name : Text
  pub path : Option Text
  pub fstype : Option Text
  pub uuid : Option Text
  pub label : Option Text
  pub size_bytes : Option ℤ
  pub read_only : Bool
  pub mountpoint : Option Text
  pub dev_type : Option Text
  pub model : Option Text
  pub serial : Option Text
  pub partuuid : Option Text

mutual
  pub data BlockDevice : Type 0 where
    device : Columns → Devices → BlockDevice

  pub data Devices : Type 0 where
    leaf : Devices
    child : BlockDevice → Devices → Devices

unfoldable pub columns : BlockDevice → Columns
columns (device c children) = c

-- `not value` of a string that may be `None`.
unfoldable pub is_empty : Option Text → Bool
is_empty none = true
is_empty (some []) = true
is_empty (some (x ∷ xs)) = false

-- `a or b` on strings that may be `None`.
unfoldable pub or_text : Option Text → Option Text → Option Text
or_text none b = b
or_text (some []) b = b
or_text (some (x ∷ xs)) b = some (x ∷ xs)

unfoldable mutual
  pub flatten : BlockDevice → List BlockDevice
  flatten (device c children) = device c children ∷ flatten_children children

  pub flatten_children : Devices → List BlockDevice
  flatten_children leaf = []
  flatten_children (child d ds) = flatten d ++ flatten_children ds

unfoldable pub flatten_devices : List BlockDevice → List BlockDevice
unfolding flatten
flatten_devices [] = []
flatten_devices (d ∷ ds) = flatten d ++ flatten_devices ds

-- `d.uuid == uuid`, where `d.uuid` may be `None`.
unfoldable pub has_uuid : Text → BlockDevice → Bool
unfolding columns text_eq
has_uuid uuid d = elim (columns d).uuid [ none ↦ false | some u ↦ text_eq u uuid ]

unfoldable pub find_by_uuid : List BlockDevice → Text → List BlockDevice
unfolding flatten_devices has_uuid
find_by_uuid devices uuid = filter_p (has_uuid uuid) (flatten_devices devices)

-- What blkid prints of a device, by its keys; nothing where it fails.
abbrev pub Probe : Type 0
Probe = Text → Text → Option Text

-- `uuid is None or fstype is None`
unfoldable pub is_missing : Option Text → Bool
is_missing none = true
is_missing (some t) = false

-- The columns with what blkid adds, for a device that has a path.
unfoldable pub enrich_columns : Probe → Columns → Columns
unfolding is_missing or_text
enrich_columns blkid c = elim c.path [
  | none ↦ c
  | some path ↦
      if is_missing c.uuid || is_missing c.fstype
      then record c {
        uuid = or_text c.uuid (blkid path (codes "UUID"));
        fstype = or_text c.fstype (blkid path (codes "TYPE"));
        label = or_text c.label (blkid path (codes "LABEL"));
      }
      else c
]

unfoldable mutual
  unfolding enrich_columns

  pub enrich : Probe → BlockDevice → BlockDevice
  enrich blkid (device c children) =
      device (enrich_columns blkid c) (enrich_children blkid children)

  pub enrich_children : Probe → Devices → Devices
  enrich_children blkid leaf = leaf
  enrich_children blkid (child d ds) = child (enrich blkid d) (enrich_children blkid ds)
