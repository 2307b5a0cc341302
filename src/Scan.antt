-- ===== src/Scan.antt =====
-- aethereal/backup/preflight.py: the walk of a card. A card is a tree of folders, as `os.walk` lists
-- it: it yields nothing for a folder that cannot be listed, and does not descend into a link.
-- `lower` is Python's `str.lower`.
pub mod Accounts
pub mod Total
pub mod Names
pub mod Records
use pi_mobile_photobackup.Prelude.{
  ℕ, zero, suc, ◌+◌, Text, Bytes, codes, text_eq, Bool, true, false, not, ◌||◌, ◌&&◌, Option, none,
  some, List, [], ◌∷◌, ◌++◌, any_p, length, ◌==◌, if◌then◌else◌,
}
use pi_mobile_photobackup.Prelude.Maybe.{◌>>=◌}
use pi_mobile_photobackup.Identity.{
  Sha256, ContentIdentity, Hashed, hashed, bad_chunk_size, out_of_fuel, hash_stream,
}
use pi_mobile_photobackup.Classification.{ClassificationInput}
use pi_mobile_photobackup.Snapshot.{SourceFileRecord, normalize_relative_path}

-- A regular file with its content, one whose reading fails, and a link or special file.
pub data FileKind : Type 0 where
  regular : Bytes → FileKind
  failing special : FileKind

mutual
  pub data Folder : Type 0 where
    folder : List (Text × FileKind) → Folders → Folder
    unlistable : Folder

  -- Named folders; the flag says that the name is a link.
  pub data Folders : Type 0 where
    last : Folders
    subfolder : Text → Bool → Folder → Folders → Folders

pub record ScanResult : Type 0 where
  pub inputs : List ClassificationInput
  pub records : List SourceFileRecord
  pub skipped_ext_counts : List (Text × ℕ)
  pub skipped_hidden_count : ℕ

unfoldable pub starts_with_dot : Text → Bool
starts_with_dot [] = false
starts_with_dot (c ∷ cs) = c == 46

-- What follows the last dot.
unfoldable pub after_last_dot : Text → Option Text
after_last_dot [] = none
after_last_dot (c ∷ cs) = elim (after_last_dot cs) [
  | some t ↦ some t
  | none ↦ if c == 46 then some cs else none
]

-- `Path(name).suffix` without its dot: a dot at the start or the end of the name makes none.
unfoldable pub suffix_of : Text → Text
unfolding after_last_dot
suffix_of [] = []
suffix_of (c ∷ cs) = elim (after_last_dot cs) [ none ↦ [] | some t ↦ t ]

-- `counts[ext] = counts.get(ext, 0) + 1`
unfoldable pub count_up : Text → List (Text × ℕ) → List (Text × ℕ)
unfolding text_eq
count_up ext [] = (ext, 1) ∷ []
count_up ext ((e, n) ∷ rest) =
    let later = count_up ext rest in if text_eq e ext then (e, suc n) ∷ rest else (e, n) ∷ later

-- What `rglob("*")` yields in a folder.
unfoldable mutual
  pub count_entries : Folder → ℕ
  count_entries (folder files folders) = length files + count_subfolders folders
  count_entries unlistable = 0

  pub count_subfolders : Folders → ℕ
  count_subfolders last = 0
  count_subfolders (subfolder name is_link f fs) =
      suc ((if is_link then 0 else count_entries f) + count_subfolders fs)

unfoldable pub path_in : Text → Text → Text
path_in [] name = name
path_in (c ∷ cs) name = (c ∷ cs) ++ codes "/" ++ name

module _ (sha : Sha256) (chunk_bytes : ℕ) (lower : Text → Text) (media_extensions : List Text) where
  -- `bool(media_extensions)`
  unfoldable pub is_filtering : Bool
  is_filtering = elim media_extensions [ [] ↦ false | e ∷ es ↦ true ]

  unfoldable pub is_media : Text → Bool
  unfolding text_eq
  is_media ext = any_p (λ e. text_eq e ext) media_extensions

  -- The part of the loop for one file that the whitelist lets pass; `none` is a ValueError.
  unfoldable pub scan_kind : Text → FileKind → ScanResult → Option ScanResult
  unfolding hash_stream
  scan_kind relative special s = some (record s {
    inputs =
        s.inputs
        ++ record {
          relative_path = relative;
          identity = none;
          is_unreadable = false;
          is_unsupported = true;
        }
          ∷ [];
  })
  scan_kind relative failing s = some (record s {
    inputs =
        s.inputs
        ++ record {
          relative_path = relative;
          identity = none;
          is_unreadable = true;
          is_unsupported = false;
        }
          ∷ [];
  })
  scan_kind relative (regular content) s = elim (hash_stream sha content chunk_bytes) [
    | hashed identity ↦ some (record s {
      inputs =
          s.inputs
          ++ record {
            relative_path = relative;
            identity = some identity;
            is_unreadable = false;
            is_unsupported = false;
          }
            ∷ [];
      records =
          s.records
          ++ record {
            relative_path = relative;
            size_bytes = identity.size_bytes;
            sha256 = identity.sha256;
          }
            ∷ [];
    })
    | bad_chunk_size ↦ none
    | out_of_fuel ↦ none
  ]

  unfoldable pub scan_found : Text → FileKind → ScanResult → Option ScanResult
  unfolding scan_kind normalize_relative_path
  scan_found path kind s = normalize_relative_path path >>= λ relative. scan_kind relative kind s

  unfoldable pub scan_file : Text → Text × FileKind → ScanResult → Option ScanResult
  unfolding is_filtering is_media starts_with_dot suffix_of count_up scan_found path_in
  scan_file dirpath (name, kind) s =
      let ext = lower (suffix_of name) in
      let found = scan_found (path_in dirpath name) kind s in
      if is_filtering && starts_with_dot name
      then some (record s { skipped_hidden_count = suc s.skipped_hidden_count })
      else if is_filtering && not (is_media ext)
      then some (record s { skipped_ext_counts = count_up ext s.skipped_ext_counts })
      else found

  unfoldable pub scan_files : Text → List (Text × FileKind) → ScanResult → Option ScanResult
  unfolding scan_file
  scan_files dirpath [] s = some s
  scan_files dirpath (f ∷ fs) s = scan_file dirpath f s >>= scan_files dirpath fs

  -- The folders that are pruned are counted before the files of their parent are read.
  unfoldable pub count_pruned : Folders → ℕ
  unfolding is_filtering starts_with_dot count_entries
  count_pruned last = 0
  count_pruned (subfolder name is_link f fs) =
      (if is_filtering && starts_with_dot name then count_entries f else 0) + count_pruned fs

  unfoldable mutual
    unfolding scan_files count_pruned is_filtering starts_with_dot path_in

    pub scan_folder : Text → Folder → ScanResult → Option ScanResult
    scan_folder dirpath unlistable s = some s
    scan_folder dirpath (folder files folders) s =
        scan_files dirpath files
          (record s { skipped_hidden_count = s.skipped_hidden_count + count_pruned folders })
        >>= scan_folders dirpath folders

    pub scan_folders : Text → Folders → ScanResult → Option ScanResult
    scan_folders dirpath last s = some s
    scan_folders dirpath (subfolder name is_link f fs) s =
        (if is_link || (is_filtering && starts_with_dot name)
          then some s
          else scan_folder (path_in dirpath name) f s)
        >>= scan_folders dirpath fs

  unfoldable pub scan_source : Folder → Option ScanResult
  unfolding scan_folder
  scan_source root =
      scan_folder [] root
        (record { inputs = []; records = []; skipped_ext_counts = []; skipped_hidden_count = 0 })
