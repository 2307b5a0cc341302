-- ===== src/Linux/Parsing.antt =====
-- linux/devices.py: the device trees from what lsblk prints as JSON. `text_of` is what `str` makes
-- of a value that is no string, and `int_of` what `int` makes of a string.
use pi_mobile_photobackup.Prelude.{
  Text, codes, text_eq, Bool, true, false, ◌||◌, Option, none, some, List, [], ◌∷◌, map,
  if◌then◌else◌,
}
use pi_mobile_photobackup.Prelude.Int.{ℤ}
use pi_mobile_photobackup.Effects.{Exec, pure, ◌>>=◌, ◌>>◌}
use pi_mobile_photobackup.Linux.Devices.{
  Columns, BlockDevice, Devices, device, leaf, child, Probe, enrich,
}
use pi_mobile_photobackup.Linux.Mounts.{Commands, require_linux}
pub mod Printed

-- The values of JSON. Other numbers than integers are told apart by their texts.
mutual
  pub data Json : Type 0 where
    null : Json
    bool : Bool → Json
    integer : ℤ → Json
    number : Text → Json
    string : Text → Json
    array : Items → Json
    object : Members → Json

  pub data Items : Type 0 where
    end : Items
    item : Json → Items → Items

  pub data Members : Type 0 where
    close : Members
    member : Text → Json → Members → Members

-- `node.get(key)`; of two members with one key, JSON keeps the later one, and so no list of members
-- has a key twice.
unfoldable pub get : Text → Members → Option Json
unfolding text_eq
get key close = none
get key (member k v rest) = let found = get key rest in if text_eq k key then some v else found

-- `None` for a key that is missing, which is also what JSON's null is read as.
unfoldable pub value_of : Option Json → Json
value_of none = null
value_of (some v) = v

unfoldable pub is_true_text : Text → Bool
unfolding text_eq
is_true_text t = text_eq t (codes "1") || (text_eq t (codes "true") || text_eq t (codes "True"))

unfoldable pub listed : Devices → List BlockDevice
listed leaf = []
listed (child d ds) = d ∷ listed ds

module _ (text_of : Json → Text) (int_of : Text → Option ℤ) where
  unfoldable pub str : Json → Text
  str (string t) = t
  str null = text_of null
  str (bool b) = text_of (bool b)
  str (integer n) = text_of (integer n)
  str (number t) = text_of (number t)
  str (array xs) = text_of (array xs)
  str (object ms) = text_of (object ms)

  -- The function `_str` of a node.
  unfoldable pub optional_str : Json → Option Text
  unfolding str
  optional_str null = none
  optional_str (string t) = some t
  optional_str (bool b) = some (str (bool b))
  optional_str (integer n) = some (str (integer n))
  optional_str (number t) = some (str (number t))
  optional_str (array xs) = some (str (array xs))
  optional_str (object ms) = some (str (object ms))

  unfoldable pub as_bool : Json → Bool
  unfolding str is_true_text
  as_bool (bool b) = b
  as_bool null = is_true_text (str null)
  as_bool (integer n) = is_true_text (str (integer n))
  as_bool (number t) = is_true_text (str (number t))
  as_bool (string t) = is_true_text (str (string t))
  as_bool (array xs) = is_true_text (str (array xs))
  as_bool (object ms) = is_true_text (str (object ms))

  unfoldable pub as_int : Json → Option ℤ
  as_int (integer n) = some n
  as_int (string t) = int_of t
  as_int null = none
  as_int (bool b) = none
  as_int (number t) = none
  as_int (array xs) = none
  as_int (object ms) = none

  -- `str(node.get("name", ""))`
  unfoldable pub name_of : Option Json → Text
  unfolding str
  name_of none = []
  name_of (some v) = str v

  unfoldable pub text_at : Text → Members → Option Text
  unfolding optional_str value_of get
  text_at key node = optional_str (value_of (get key node))

  unfoldable pub columns_from_node : Members → Columns
  unfolding text_at name_of as_int as_bool value_of get
  columns_from_node node = record {
    name = name_of (get (codes "name") node);
    path = text_at (codes "path") node;
    fstype = text_at (codes "fstype") node;
    uuid = text_at (codes "uuid") node;
    label = text_at (codes "label") node;
    size_bytes = as_int (value_of (get (codes "size") node));
    read_only = as_bool (value_of (get (codes "ro") node));
    mountpoint = text_at (codes "mountpoint") node;
    dev_type = text_at (codes "type") node;
    model = text_at (codes "model") node;
    serial = text_at (codes "serial") node;
    partuuid = text_at (codes "partuuid") node;
  }

  -- The children, found under their key; entries that are no objects are passed over.
  unfoldable mutual
    unfolding columns_from_node text_eq

    pub children_from_node : Members → Devices
    children_from_node close = leaf
    children_from_node (member k v rest) =
        let found = children_from_node rest in
        if text_eq k (codes "children") then devices_from_list v else found

    pub devices_from_list : Json → Devices
    devices_from_list (array xs) = devices_from_items xs
    devices_from_list (object ms) = leaf
    devices_from_list null = leaf
    devices_from_list (bool b) = leaf
    devices_from_list (integer n) = leaf
    devices_from_list (number t) = leaf
    devices_from_list (string t) = leaf

    pub devices_from_items : Items → Devices
    devices_from_items end = leaf
    devices_from_items (item (object ms) rest) =
        child (device (columns_from_node ms) (children_from_node ms)) (devices_from_items rest)
    devices_from_items (item null rest) = devices_from_items rest
    devices_from_items (item (bool b) rest) = devices_from_items rest
    devices_from_items (item (integer n) rest) = devices_from_items rest
    devices_from_items (item (number t) rest) = devices_from_items rest
    devices_from_items (item (string t) rest) = devices_from_items rest
    devices_from_items (item (array xs) rest) = devices_from_items rest

  unfoldable pub device_from_node : Members → BlockDevice
  unfolding columns_from_node children_from_node
  device_from_node node = device (columns_from_node node) (children_from_node node)

  unfoldable pub parse_lsblk_json : Members → List BlockDevice
  unfolding get value_of listed devices_from_list
  parse_lsblk_json root = listed (devices_from_list (value_of (get (codes "blockdevices") root)))

-- `[_enrich(device) for device in …]`
unfoldable pub enrich_all : Probe → List BlockDevice → List BlockDevice
unfolding enrich
enrich_all blkid devices = map (enrich blkid) devices

abbrev pub lsblk_columns : Text
lsblk_columns = codes "NAME,PATH,FSTYPE,UUID,LABEL,SIZE,RO,MOUNTPOINT,TYPE,MODEL,SERIAL,PARTUUID"

-- `json_loads` is Python's, for the object that lsblk prints.
unfoldable pub list_block_devices :
    {S : Type 0}
    → Commands S
    → (Text → Members)
    → (Json → Text)
    → (Text → Option ℤ)
    → Probe
    → Exec S (List BlockDevice)
unfolding ◌>>=◌ pure require_linux parse_lsblk_json enrich_all
list_block_devices commands json_loads text_of int_of blkid = do
  require_linux commands
  output ←
      commands.run
        (codes "lsblk" ∷ codes "--json" ∷ codes "--bytes" ∷ codes "--output" ∷ lsblk_columns ∷ [])
  pure (enrich_all blkid (parse_lsblk_json text_of int_of (json_loads output)))
