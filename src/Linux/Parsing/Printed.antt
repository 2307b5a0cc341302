-- ===== src/Linux/Parsing/Printed.antt =====
-- The device trees as lsblk prints them, as it documents: strings, null, an integer size and a
-- boolean RO, and `children` where there are any. The parser of linux/devices.py on that text.
use pi_mobile_photobackup.Prelude.{
  Text, codes, Option, none, some, List, [], ◌∷◌, ◌≡◌, refl, ap, ◌∙◌,
}
use pi_mobile_photobackup.Prelude.Int.{ℤ}
use pi_mobile_photobackup.Linux.Devices.{Columns, BlockDevice, Devices, device, leaf, child}
use pi_mobile_photobackup.Linux.Parsing.{
  Json, null, bool, integer, string, array, object, Items, end, item, Members, close, member,
  optional_str, as_int, columns_from_node, children_from_node, devices_from_items, listed,
  parse_lsblk_json,
}

abbrev pub text_value : Option Text → Json
text_value none = null
text_value (some t) = string t

abbrev pub int_value : Option ℤ → Json
int_value none = null
int_value (some n) = integer n

-- The members of a node that its columns are, before the given rest.
abbrev pub print_columns : Columns → Members → Members
print_columns c rest = member (codes "name") (string c.name) (
    member (codes "path") (text_value c.path) (
      member (codes "fstype") (text_value c.fstype) (
        member (codes "uuid") (text_value c.uuid) (
          member (codes "label") (text_value c.label) (
            member (codes "size") (int_value c.size_bytes) (
              member (codes "ro") (bool c.read_only) (
                member (codes "mountpoint") (text_value c.mountpoint) (
                  member (codes "type") (text_value c.dev_type) (
                    member (codes "model") (text_value c.model) (
                      member (codes "serial") (text_value c.serial)
                        (member (codes "partuuid") (text_value c.partuuid) rest)))))))))))

mutual
  pub print_device : BlockDevice → Json
  print_device (device c children) = object (print_columns c (print_children children))

  -- No member where there are no children.
  pub print_children : Devices → Members
  print_children leaf = close
  print_children (child d ds) =
      member (codes "children") (array (item (print_device d) (print_items ds))) close

  pub print_items : Devices → Items
  print_items leaf = end
  print_items (child d ds) = item (print_device d) (print_items ds)

abbrev pub of_list : List BlockDevice → Devices
of_list [] = leaf
of_list (d ∷ ds) = child d (of_list ds)

listed-of_list : (ds : List BlockDevice) → listed (of_list ds) ≡ ds
unfolding listed
listed-of_list [] = refl
listed-of_list (d ∷ ds) = ap (λ l. d ∷ l) (listed-of_list ds)

module _ (text_of : Json → Text) (int_of : Text → Option ℤ) where
  optional_str-text_value : (o : Option Text) → optional_str text_of int_of (text_value o) ≡ o
  unfolding optional_str
  optional_str-text_value none = refl
  optional_str-text_value (some t) = refl

  as_int-int_value : (o : Option ℤ) → as_int text_of int_of (int_value o) ≡ o
  unfolding as_int
  as_int-int_value none = refl
  as_int-int_value (some n) = refl

  columns-print_columns :
      (c : Columns) (ds : Devices)
      → columns_from_node text_of int_of (print_columns c (print_children ds)) ≡ c
  unfolding columns_from_node
  columns-print_columns c ds = λ i. record c {
    path = optional_str-text_value c.path i;
    fstype = optional_str-text_value c.fstype i;
    uuid = optional_str-text_value c.uuid i;
    label = optional_str-text_value c.label i;
    size_bytes = as_int-int_value c.size_bytes i;
    mountpoint = optional_str-text_value c.mountpoint i;
    dev_type = optional_str-text_value c.dev_type i;
    model = optional_str-text_value c.model i;
    serial = optional_str-text_value c.serial i;
    partuuid = optional_str-text_value c.partuuid i;
  }

  children-print_children :
      (c : Columns) (ds : Devices)
      → devices_from_items text_of int_of (print_items ds) ≡ ds
      → children_from_node text_of int_of (print_columns c (print_children ds)) ≡ ds
  unfolding children_from_node print_items
  children-print_children c leaf read = refl
  children-print_children c (child d ds) read = read

  items-print_items : (ds : Devices) → devices_from_items text_of int_of (print_items ds) ≡ ds
  unfolding children_from_node print_items
  items-print_items leaf = refl
  items-print_items (child (device c es) ds) = λ i.
      child
        (device (columns-print_columns c es i)
          (children-print_children c es (items-print_items es) i))
        (items-print_items ds i)

  -- For device trees of any depth, the JSON of lsblk for them, with strings or null, an integer
  -- size, a boolean RO, and a list of children where there are any, is parsed to these trees.
  pub parse_lsblk_json-print :
      (ds : List BlockDevice)
      → parse_lsblk_json text_of int_of
          (member (codes "blockdevices") (array (print_items (of_list ds))) close)
        ≡ ds
  unfolding parse_lsblk_json
  parse_lsblk_json-print ds = ap (listed) (items-print_items (of_list ds)) ∙ listed-of_list ds
