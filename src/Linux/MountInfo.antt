-- ===== src/Linux/MountInfo.antt =====
-- linux/mountinfo.py: the entries of the mount table and the look-ups in it. `normal` is what
-- `str(Path(p))` makes of a path.
use pi_mobile_photobackup.Prelude.Maybe.{◌>>=◌}
use pi_mobile_photobackup.Prelude.Int.{ℤ}
use pi_mobile_photobackup.Linux.Texts.{strip, split_at, split_words, split_dash}
use pi_mobile_photobackup.Prelude.{
  ℕ, ◌+◌, ◌-◌, ◌*◌, leb, ◌&&◌, ◌==◌, Text, codes, text_eq, Bool, Option, none, some, List, [], ◌∷◌,
  filter_p, any_p, if◌then◌else◌,
}

-- An octal digit.
unfoldable pub is_octal : ℕ → Bool
is_octal c = leb 48 c && leb c 55

-- `_unescape`: a backslash and three octal digits are a character.
unfoldable pub unescape : Text → Text
unfolding is_octal
unescape [] = []
unescape (a ∷ []) = a ∷ []
unescape (a ∷ b ∷ []) = a ∷ b ∷ []
unescape (a ∷ b ∷ c ∷ []) = a ∷ b ∷ c ∷ []
unescape (a ∷ b ∷ c ∷ d ∷ rest) =
    let shorter = a ∷ unescape (b ∷ c ∷ d ∷ rest) in
    let decoded = ((b - 48) * 64 + (c - 48) * 8 + (d - 48)) ∷ unescape rest in
    if a == 92 && (is_octal b && (is_octal c && is_octal d)) then decoded else shorter

pub record MountInfoEntry : Type 0 where
  pub mount_id : ℤ
  pub parent_id : ℤ
  pub major_minor : Text
  pub root : Text
  pub mount_point : Text
  pub mount_options : List Text
  pub fstype : Text
  pub mount_source : Text
  pub super_options : List Text

-- The entry of a line's fields, left and right of the dash: `none` in the outer option is the
-- ValueError of `int`, in the inner one a malformed line.
unfoldable pub entry_of : (Text → Option ℤ) → List Text → List Text → Option (Option MountInfoEntry)
unfolding unescape split_at
entry_of int_of (i ∷ p ∷ dev ∷ root ∷ point ∷ options ∷ tags) (fstype ∷ source ∷ super ∷ more) = do
  mount_id ← int_of i
  parent_id ← int_of p
  some (
      some (record {
        mount_id = mount_id;
        parent_id = parent_id;
        major_minor = dev;
        root = unescape root;
        mount_point = unescape point;
        mount_options = split_at 44 options;
        fstype = fstype;
        mount_source = unescape source;
        super_options = split_at 44 super;
      }))
entry_of int_of left right = some none

unfoldable pub parse_line : (Text → Option ℤ) → Text → Option (Option MountInfoEntry)
unfolding strip split_dash split_words entry_of
parse_line int_of line = elim (split_dash (strip line)) [
  | none ↦ some none
  | some (left, right) ↦ entry_of int_of (split_words left) (split_words right)
]

unfoldable pub parse_lines : (Text → Option ℤ) → List Text → Option (List MountInfoEntry)
unfolding parse_line
parse_lines int_of [] = some []
parse_lines int_of (line ∷ lines) = do
  entry ← parse_line int_of line
  rest ← parse_lines int_of lines
  some (elim entry [ none ↦ rest | some e ↦ e ∷ rest ])

-- The kernel ends a line by a newline only, and escapes those in paths.
unfoldable pub parse_mountinfo : (Text → Option ℤ) → Text → Option (List MountInfoEntry)
unfolding parse_lines split_at
parse_mountinfo int_of text = parse_lines int_of (split_at 10 text)

unfoldable pub entry_read_only : MountInfoEntry → Bool
unfolding text_eq
entry_read_only e = any_p (λ o. text_eq o (codes "ro")) e.mount_options

unfoldable pub find_by_mount_point :
    (Text → Text) → List MountInfoEntry → Text → Option MountInfoEntry
unfolding text_eq
find_by_mount_point normal [] point = none
find_by_mount_point normal (e ∷ es) point =
    let rest = find_by_mount_point normal es point in
    if text_eq (normal e.mount_point) (normal point) then some e else rest

unfoldable pub find_by_source : List MountInfoEntry → Text → List MountInfoEntry
unfolding text_eq
find_by_source entries source = filter_p (λ e. text_eq e.mount_source source) entries
