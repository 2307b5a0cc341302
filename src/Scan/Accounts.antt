-- ===== src/Scan/Accounts.antt =====
-- backup/preflight.py: the result of a scan and the files that the walk yields.
use pi_mobile_photobackup.Prelude.{
  ℕ, suc, ◌+◌, Text, true, false, not, ◌||◌, ◌&&◌, none, some, List, [], ◌∷◌, ◌++◌, length, ◌≡◌,
  refl, subst, arith, inl, inr, Bool-cases, if◌then◌else◌,
}
use pi_mobile_photobackup.Prelude.Maybe.{>>=-eq-some, eq_of_some}
use pi_mobile_photobackup.Identity.{
  Sha256, Hashed, hashed, bad_chunk_size, out_of_fuel, hash_stream,
}
use pi_mobile_photobackup.Snapshot.{normalize_relative_path}
use pi_mobile_photobackup.Scan.{
  FileKind, regular, failing, special, Folder, folder, unlistable, Folders, last, subfolder,
  ScanResult, starts_with_dot, suffix_of, count_entries, path_in, is_filtering, is_media, scan_kind,
  scan_found, scan_file, scan_files, count_pruned, scan_folder, scan_folders, scan_source,
}
use pi_mobile_photobackup.Scan.Records.{IsAccount, sum_counts-count_up, add_input, add_unread}

module _ (sha : Sha256) (chunk_bytes : ℕ) (lower : Text → Text) (media_extensions : List Text) where
  scan_kind-IsAccount :
      (n : ℕ) (relative : Text) (kind : FileKind) (s s' : ScanResult)
      → IsAccount n s
      → scan_kind sha chunk_bytes lower media_extensions relative kind s ≡ some s'
      → IsAccount (suc n) s'
  unfolding scan_kind
  scan_kind-IsAccount n relative special s s' h e =
      subst (IsAccount (suc n)) (eq_of_some e) (add_unread n s _ refl h)
  scan_kind-IsAccount n relative failing s s' h e =
      subst (IsAccount (suc n)) (eq_of_some e) (add_unread n s _ refl h)
  scan_kind-IsAccount n relative (regular content) s s' h e =
      by (hash_stream sha content chunk_bytes) e
    where
      by :
          (r : Hashed)
          → elim r [
            | hashed identity ↦ some (record s {
              inputs =
                  s.inputs
                  ++ record {
                    relative_path = relative;
                    identity = some identity;
                    is_unreadable = false;
                    is_unsupported = false;
                  }
                    ∷ [];
              records =
                  s.records
                  ++ record {
                    relative_path = relative;
                    size_bytes = identity.size_bytes;
                    sha256 = identity.sha256;
                  }
                    ∷ [];
            })
            | bad_chunk_size ↦ none
            | out_of_fuel ↦ none
          ]
            ≡ some s'
          → IsAccount (suc n) s'
      by (hashed identity) e = subst (IsAccount (suc n)) (eq_of_some e) (
          add_input n s
            (record {
              relative_path = relative;
              identity = some identity;
              is_unreadable = false;
              is_unsupported = false;
            })
            h)
      by bad_chunk_size e = cc
      by out_of_fuel e = cc

  scan_found-IsAccount :
      (n : ℕ) (path : Text) (kind : FileKind) (s s' : ScanResult)
      → IsAccount n s
      → scan_found sha chunk_bytes lower media_extensions path kind s ≡ some s'
      → IsAccount (suc n) s'
  unfolding scan_found
  scan_found-IsAccount n path kind s s' h e =
      let t = >>=-eq-some (normalize_relative_path path) _ e in
      scan_kind-IsAccount n t.0 kind s s' h t.2

  scan_file-IsAccount :
      (n : ℕ) (dirpath : Text) (f : Text × FileKind) (s s' : ScanResult)
      → IsAccount n s
      → scan_file sha chunk_bytes lower media_extensions dirpath f s ≡ some s'
      → IsAccount (suc n) s'
  unfolding scan_file
  scan_file-IsAccount n dirpath (name, kind) s s' h e =
      let filtering = is_filtering sha chunk_bytes lower media_extensions in
      let ext = lower (suffix_of name) in
      elim (Bool-cases (filtering && starts_with_dot name)) [
        | inl hidden ↦
            subst (IsAccount (suc n)) (eq_of_some (rw (hidden, scan_file) at e))
              (record { counted = omega (arith, h.counted); recorded = h.recorded })
        | inr shown ↦
            elim (Bool-cases
              (filtering && not (is_media sha chunk_bytes lower media_extensions ext))) [
                | inl other ↦
                    subst (IsAccount (suc n)) (eq_of_some (rw (shown, other, scan_file) at e))
                      (record {
                        counted =
                            omega (arith, h.counted, sum_counts-count_up ext s.skipped_ext_counts);
                        recorded = h.recorded;
                      })
                | inr media ↦
                    scan_found-IsAccount n (path_in dirpath name) kind s s' h
                      (rw (shown, media, scan_file) at e)
              ]
      ]

  scan_files-IsAccount :
      (n : ℕ) (dirpath : Text) (fs : List (Text × FileKind)) (s s' : ScanResult)
      → IsAccount n s
      → scan_files sha chunk_bytes lower media_extensions dirpath fs s ≡ some s'
      → IsAccount (n + length fs) s'
  unfolding scan_files
  scan_files-IsAccount n dirpath [] s s' h e =
      let same : n ≡ n + 0 = omega arith in
      subst (λ k. IsAccount k s') same (subst (IsAccount n) (eq_of_some e) h)
  scan_files-IsAccount n dirpath (f ∷ fs) s s' h e =
      let t = >>=-eq-some (scan_file sha chunk_bytes lower media_extensions dirpath f s) _ e in
      let same : suc n + length fs ≡ n + suc (length fs) = omega arith in
      subst (λ k. IsAccount k s') same
        (scan_files-IsAccount (suc n) dirpath fs t.0 s'
          (scan_file-IsAccount n dirpath f s t.0 h t.1) t.2)

  -- What the walk yields: every file, and every entry of a hidden folder that a whitelist leaves out.
  -- Nothing of a folder that cannot be listed, and nothing of a link to a folder.
  mutual
    pub yielded : Folder → ℕ
    yielded unlistable = 0
    yielded (folder files folders) = length files + yielded_folders folders

    pub yielded_folders : Folders → ℕ
    yielded_folders last = 0
    yielded_folders (subfolder name is_link f fs) =
        (if is_filtering sha chunk_bytes lower media_extensions && starts_with_dot name
          then count_entries f
          else (if is_link then 0 else yielded f))
        + yielded_folders fs

  mutual
    unfolding scan_folder yielded count_pruned

    scan_folder-IsAccount :
        (n : ℕ) (dirpath : Text) (f : Folder) (s s' : ScanResult)
        → IsAccount n s
        → scan_folder sha chunk_bytes lower media_extensions dirpath f s ≡ some s'
        → IsAccount (n + yielded f) s'
    scan_folder-IsAccount n dirpath unlistable s s' h e =
        let same : n ≡ n + 0 = omega arith in
        subst (λ k. IsAccount k s') same (subst (IsAccount n) (eq_of_some e) h)
    scan_folder-IsAccount n dirpath (folder files folders) s s' h e =
        let pruned = count_pruned sha chunk_bytes lower media_extensions folders in
        let s0 : ScanResult = record s { skipped_hidden_count = s.skipped_hidden_count + pruned } in
        let h0 : IsAccount (n + pruned) s0 = record {
          counted = omega (arith, h.counted);
          recorded = h.recorded;
        } in
        let t =
          >>=-eq-some (scan_files sha chunk_bytes lower media_extensions dirpath files s0) _ e in
        let h1 = scan_files-IsAccount (n + pruned) dirpath files s0 t.0 h0 t.1 in
        let swap : n + pruned + length files ≡ n + length files + pruned = omega arith in
        let same : n + length files + yielded_folders folders
            ≡ n + (length files + yielded_folders folders) =
          omega arith in
        subst (λ k. IsAccount k s') same
          (scan_folders-IsAccount (n + length files) dirpath folders t.0 s'
            (subst (λ k. IsAccount k t.0) swap h1) t.2)

    scan_folders-IsAccount :
        (n : ℕ) (dirpath : Text) (fs : Folders) (s s' : ScanResult)
        → IsAccount (n + count_pruned sha chunk_bytes lower media_extensions fs) s
        → scan_folders sha chunk_bytes lower media_extensions dirpath fs s ≡ some s'
        → IsAccount (n + yielded_folders fs) s'
    scan_folders-IsAccount n dirpath last s s' h e = subst (IsAccount (n + 0)) (eq_of_some e) h
    scan_folders-IsAccount n dirpath (subfolder name is_link f fs) s s' h e =
        let hidden = is_filtering sha chunk_bytes lower media_extensions && starts_with_dot name in
        let later = count_pruned sha chunk_bytes lower media_extensions fs in
        let walk = scan_folder sha chunk_bytes lower media_extensions (path_in dirpath name) f s in
        let t = >>=-eq-some (if is_link || hidden then some s else walk) _ e in
        let go = λ (k : ℕ) (h1 : IsAccount (k + later) t.0).
          scan_folders-IsAccount k dirpath fs t.0 s' h1 t.2 in
        elim (Bool-cases hidden) [
          | inl hid ↦
              let out : is_link || hidden ≡ true = ground (arith, hid) in
              let before : n + ((if hidden then count_entries f else 0) + later)
                  ≡ n + count_entries f + later =
                rw hid (omega arith) in
              let after : n + count_entries f + yielded_folders fs
                  ≡ n
                    + ((if hidden then count_entries f else (if is_link then 0 else yielded f))
                        + yielded_folders fs) =
                rw hid (omega arith) in
              subst (λ k. IsAccount k s') after
                (go (n + count_entries f) (
                  subst (λ k. IsAccount k t.0) before
                    (subst (IsAccount _) (eq_of_some (rw out at t.1)) h)))
          | inr plain ↦
              let before : n + ((if hidden then count_entries f else 0) + later) ≡ n + later =
                rw plain (omega arith) in
              let h0 : IsAccount (n + later) s = subst (λ k. IsAccount k s) before h in
              elim (Bool-cases is_link) [
                | inl link ↦
                    let out : is_link || hidden ≡ true = ground (arith, link) in
                    let after : n + yielded_folders fs
                        ≡ n
                          + ((if hidden
                                then count_entries f
                                else (if is_link then 0 else yielded f))
                              + yielded_folders fs) =
                      rw (plain, link) (omega arith) in
                    subst (λ k. IsAccount k s') after
                      (go n (subst (IsAccount (n + later)) (eq_of_some (rw out at t.1)) h0))
                | inr real ↦
                    let in_ : is_link || hidden ≡ false = ground (arith, real, plain) in
                    let swap : n + later + yielded f ≡ n + yielded f + later = omega arith in
                    let after : n + yielded f + yielded_folders fs
                        ≡ n
                          + ((if hidden
                                then count_entries f
                                else (if is_link then 0 else yielded f))
                              + yielded_folders fs) =
                      rw (plain, real) (omega arith) in
                    subst (λ k. IsAccount k s') after
                      (go (n + yielded f) (
                        subst (λ k. IsAccount k t.0) swap
                          (scan_folder-IsAccount (n + later) (path_in dirpath name) f s t.0 h0
                            (rw in_ at t.1))))
              ]
        ]

  pub scan_source-IsAccount :
      (root : Folder) (s : ScanResult)
      → scan_source sha chunk_bytes lower media_extensions root ≡ some s
      → IsAccount (yielded root) s
  unfolding scan_source
  scan_source-IsAccount root s e =
      let same : 0 + yielded root ≡ yielded root = omega arith in
      subst (λ k. IsAccount k s) same
        (scan_folder-IsAccount 0 [] root _ s (record { counted = omega arith; recorded = refl }) e)
