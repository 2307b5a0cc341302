-- ===== src/Files/Laws.antt =====
-- What the file operations do to names and contents.
use pi_mobile_photobackup.Prelude.{
  ℕ, ◌≡◌, refl, Text, Bytes, true, none, some, List, [], ◌∷◌, arith, ◌==◌, text_eq, text_eq_iff,
  if◌then◌else◌,
}
use pi_mobile_photobackup.Files.{
  Files, find_name, drop_name, find_blob, inode, blob, exists, unlink, create, write, link, replace,
}

find_name-drop_name :
    (p q : Text) (ns : List (Text × ℕ))
    → find_name q (drop_name p ns) ≡ (if text_eq p q then none else find_name q ns)
unfolding find_name drop_name
find_name-drop_name p q [] = ground arith
find_name-drop_name p q ((r, i) ∷ ns) =
    ground (arith, find_name-drop_name p q ns, text_eq_iff r p, text_eq_iff r q, text_eq_iff p q)

module _ (p q : Text) (f : Files) where
  pub inode-unlink : inode q (unlink p f) ≡ (if text_eq p q then none else inode q f)
  unfolding unlink
  inode-unlink = find_name-drop_name p q f.names

  pub inode-create : inode q (create p f) ≡ (if text_eq p q then some f.next_inode else inode q f)
  unfolding create find_name
  inode-create = refl

  pub inode-link : (i : ℕ) → inode q (link i p f) ≡ (if text_eq p q then some i else inode q f)
  unfolding link find_name
  inode-link i = refl

  -- The target names the file, and the old name is gone.
  pub inode-replace :
      (i : ℕ) (r : Text)
      → inode r (replace p i q f)
        ≡ (if text_eq q r then some i else if text_eq p r then none else inode r f)
  unfolding replace find_name
  inode-replace i r =
      ground (arith, find_name-drop_name q r (drop_name p f.names), find_name-drop_name p r f.names)

module _ (i j : ℕ) (b : Bytes) (f : Files) where
  pub blob-write : blob j (write i b f) ≡ (if i == j then b else blob j f)
  unfolding write find_blob
  blob-write = refl

pub blob-create :
    (p : Text) (j : ℕ) (f : Files)
    → blob j (create p f) ≡ (if f.next_inode == j then [] else blob j f)
unfolding create find_blob
blob-create p j f = refl

pub exists_of_inode : (p : Text) (f : Files) {i : ℕ} → inode p f ≡ some i → exists p f ≡ true
unfolding exists
exists_of_inode p f h = rw h

pub inode_of_exists : (p : Text) (f : Files) → exists p f ≡ true → (i : ℕ) × (inode p f ≡ some i)
unfolding exists
inode_of_exists p f h = ground arith
