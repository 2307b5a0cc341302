-- ===== src/Scan/Total.antt =====
-- backup/preflight.py: when the scan of a card returns.
use pi_mobile_photobackup.Prelude.{
  ℕ, ◌<◌, Text, Bool, true, false, not, ◌||◌, ◌&&◌, Option, none, some, List, [], ◌∷◌, ◌≡◌, refl,
  inl, inr, Bool-cases, All, if◌then◌else◌,
}
use pi_mobile_photobackup.Prelude.Maybe.{◌>>=◌}
use pi_mobile_photobackup.Identity.{Sha256}
use pi_mobile_photobackup.Identity.Streaming.{hash_stream_lem}
use pi_mobile_photobackup.Scan.{
  FileKind, regular, failing, special, Folder, folder, unlistable, Folders, last, subfolder,
  ScanResult, starts_with_dot, suffix_of, path_in, is_filtering, is_media, scan_kind, scan_found,
  scan_file, scan_files, scan_folder, scan_folders, scan_source,
}
use pi_mobile_photobackup.Scan.Records.{IsAccount}
use pi_mobile_photobackup.Scan.Accounts.{yielded, scan_source-IsAccount}
use pi_mobile_photobackup.Scan.Names.{
  IsName, HasNames, HaveNames, IsRelative, normalize-IsRelative, path_in-IsRelative,
}

-- A program that returns.
abbrev Returns : Option ScanResult → Type 0
Returns o = (s : ScanResult) × (o ≡ some s)

Returns->>= :
    (o : Option ScanResult) (f : ScanResult → Option ScanResult)
    → Returns o
    → ((s : ScanResult) → Returns (f s))
    → Returns (o >>= f)
Returns->>= (some s) f h hf = hf s
Returns->>= none f h hf = cc h.1

unless :
    (b : Bool) (s : ScanResult) {o : Option ScanResult}
    → Returns o
    → Returns (if b then some s else o)
unless true s h = (s, refl)
unless false s h = h

module _ (sha : Sha256) (chunk_bytes : ℕ) (lower : Text → Text) (media_extensions : List Text)
    (positive : 0 < chunk_bytes) where
  scan_kind-Returns :
      (relative : Text) (kind : FileKind) (s : ScanResult)
      → Returns (scan_kind sha chunk_bytes lower media_extensions relative kind s)
  unfolding scan_kind
  scan_kind-Returns relative special s = (_, refl)
  scan_kind-Returns relative failing s = (_, refl)
  scan_kind-Returns relative (regular content) s =
      rw (hash_stream_lem sha content chunk_bytes positive, scan_kind) (_, refl)

  scan_found-Returns :
      (path : Text) (kind : FileKind) (s : ScanResult)
      → IsRelative path
      → Returns (scan_found sha chunk_bytes lower media_extensions path kind s)
  unfolding scan_found
  scan_found-Returns path kind s h =
      let t = normalize-IsRelative path h in rw t.1 (scan_kind-Returns t.0 kind s)

  scan_file-Returns :
      (dirpath : Text) (f : Text × FileKind) (s : ScanResult)
      → IsRelative dirpath
      → IsName f.0
      → Returns (scan_file sha chunk_bytes lower media_extensions dirpath f s)
  unfolding scan_file
  scan_file-Returns dirpath (name, kind) s d h =
      let filtering = is_filtering sha chunk_bytes lower media_extensions in
      let ext = lower (suffix_of name) in
      elim (Bool-cases (filtering && starts_with_dot name)) [
        | inl hidden ↦ rw (hidden, scan_file) (_, refl)
        | inr shown ↦
            elim (Bool-cases
              (filtering && not (is_media sha chunk_bytes lower media_extensions ext))) [
                | inl other ↦ rw (shown, other, scan_file) (_, refl)
                | inr media ↦
                    rw (shown, media, scan_file)
                      (scan_found-Returns (path_in dirpath name) kind s
                        (path_in-IsRelative dirpath name d h))
              ]
      ]

  scan_files-Returns :
      (dirpath : Text) (fs : List (Text × FileKind)) (s : ScanResult)
      → IsRelative dirpath
      → All (λ f. IsName f.0) fs
      → Returns (scan_files sha chunk_bytes lower media_extensions dirpath fs s)
  unfolding scan_files
  scan_files-Returns dirpath [] s d h = (s, refl)
  scan_files-Returns dirpath (f ∷ fs) s d h =
      Returns->>= _ _ (scan_file-Returns dirpath f s d h.0)
        (λ t. scan_files-Returns dirpath fs t d h.1)

  mutual
    unfolding scan_folder HasNames

    scan_folder-Returns :
        (dirpath : Text) (f : Folder) (s : ScanResult)
        → IsRelative dirpath
        → HasNames f
        → Returns (scan_folder sha chunk_bytes lower media_extensions dirpath f s)
    scan_folder-Returns dirpath unlistable s d h = (s, refl)
    scan_folder-Returns dirpath (folder files folders) s d h =
        Returns->>= _ _ (scan_files-Returns dirpath files _ d h.0)
          (λ t. scan_folders-Returns dirpath folders t d h.1)

    scan_folders-Returns :
        (dirpath : Text) (fs : Folders) (s : ScanResult)
        → IsRelative dirpath
        → HaveNames fs
        → Returns (scan_folders sha chunk_bytes lower media_extensions dirpath fs s)
    scan_folders-Returns dirpath last s d h = (s, refl)
    scan_folders-Returns dirpath (subfolder name is_link f fs) s d h =
        Returns->>= _ _
          (unless
            (is_link
              || (is_filtering sha chunk_bytes lower media_extensions && starts_with_dot name))
            s
            (scan_folder-Returns (path_in dirpath name) f s (path_in-IsRelative dirpath name d h.0)
              h.1))
          (λ t. scan_folders-Returns dirpath fs t d h.2)

  -- If the chunk size is positive and each name on the card is a file name (not empty, without a
  -- slash or backslash, and not ..), the scan of the card returns. Its inputs, the files that it
  -- skipped by their extension, and the hidden entries that it skipped are together as many as the
  -- walk yields: every file of a folder that can be listed and is reached by no link, and every
  -- entry of a hidden folder that a whitelist leaves out. Its records are those of the inputs that
  -- were read, in order.
  pub scan_source_total :
      (root : Folder)
      → HasNames root
      → (s : ScanResult) × (scan_source sha chunk_bytes lower media_extensions root ≡ some s)
        × IsAccount (yielded sha chunk_bytes lower media_extensions root) s
  unfolding scan_source
  scan_source_total root h =
      let t = scan_folder-Returns [] root _ (record { relative = refl; not_up = refl }) h in
      (t.0, t.1, scan_source-IsAccount sha chunk_bytes lower media_extensions root t.0 t.1)
