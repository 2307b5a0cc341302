-- ===== src/Files.antt =====
-- The file operations that the backup engine uses of Python's `os` and `pathlib`: a table of names
-- (hard links) and of contents. Directories are not modelled: `mkdir(parents=True, exist_ok=True)`
-- adds no file, and `fsync` only makes durable what is done.
pub mod Laws
use pi_mobile_photobackup.Prelude.{
  ℕ, suc, ◌+◌, Text, Bytes, Bool, true, false, Option, none, some, List, [], ◌∷◌, ◌==◌, text_eq,
  if◌then◌else◌,
}

pub record Files : Type 0 where
  pub names : List (Text × ℕ)
  pub blobs : List (ℕ × Bytes)
  pub next_inode : ℕ

-- `stat().st_ino`
unfoldable pub find_name : Text → List (Text × ℕ) → Option ℕ
find_name path [] = none
find_name path ((p, i) ∷ rest) = if text_eq p path then some i else find_name path rest

unfoldable pub drop_name : Text → List (Text × ℕ) → List (Text × ℕ)
drop_name path [] = []
drop_name path ((p, i) ∷ rest) =
    let later = drop_name path rest in if text_eq p path then later else (p, i) ∷ later

unfoldable pub find_blob : ℕ → List (ℕ × Bytes) → Bytes
find_blob i [] = []
find_blob i ((j, b) ∷ rest) = if j == i then b else find_blob i rest

abbrev pub inode : Text → Files → Option ℕ
inode path f = find_name path f.names

abbrev is_there : Option ℕ → Bool
is_there none = false
is_there (some _) = true

unfoldable pub exists : Text → Files → Bool
exists path f = is_there (inode path f)

-- The content of the file of an inode.
abbrev pub blob : ℕ → Files → Bytes
blob i f = find_blob i f.blobs

-- `unlink(missing_ok=True)`
unfoldable pub unlink : Text → Files → Files
unlink path f = record f { names = drop_name path f.names }

-- `open("xb")` of a path that is free: a new, empty file.
unfoldable pub create : Text → Files → Files
create path f = record f {
  names = (path, f.next_inode) ∷ f.names;
  blobs = (f.next_inode, []) ∷ f.blobs;
  next_inode = suc f.next_inode;
}

-- What an open file holds from now on.
unfoldable pub write : ℕ → Bytes → Files → Files
write i content f = record f { blobs = (i, content) ∷ f.blobs }

-- `os.link` to a path that is free.
unfoldable pub link : ℕ → Text → Files → Files
link i path f = record f { names = (path, i) ∷ f.names }

-- `os.replace` of the name of inode `i`: the target names that file, and the old name is gone.
unfoldable pub replace : Text → ℕ → Text → Files → Files
replace old i target f = record f { names = (target, i) ∷ drop_name target (drop_name old f.names) }
