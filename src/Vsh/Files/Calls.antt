-- ===== src/Vsh/Files/Calls.antt =====
-- What the calls of stdio promise on a file system that works, and what the plugin's own helpers
-- make of that.
use ps3_plugins.Base.{
  ℕ, ◌-◌, ◌<◌, ◌≡◌, refl, sym, ap, ◌∙◌, ◌≢◌, ◌⊎◌, inl, inr, Bool, true, false, ◌||◌, Option, none,
  some, [], ◌∷◌, ◌++◌, arith, ltb, ◌==◌, if◌then◌else◌, ==_self, Bytes, codes, same, same_self,
  length, replicate,
}
use ps3_plugins.Vsh.Files.{
  Node, file, folder, FileSystem, Stdio, file_exists, write_file, read_bytes, read_file_into,
  write_default_blob,
}

abbrev pub put : FileSystem → Bytes → Node → FileSystem
put fs path node q = if same q path then some node else fs q

abbrev pub remove : FileSystem → Bytes → FileSystem
remove fs path q = if same q path then none else fs q

abbrev pub made_folder : FileSystem → Bytes → FileSystem
made_folder fs path q =
    if same q path then elim (fs q) [ none ↦ some folder | some node ↦ some node ] else fs q

-- The folder of a path: all in front of its last slash.
abbrev pub has_slash : Bytes → Bool
has_slash [] = false
has_slash (c ∷ path) = c == b'/' || has_slash path

abbrev pub parent : Bytes → Bytes
parent [] = []
parent (c ∷ path) = if has_slash path then c ∷ parent path else []

-- The folder of a path is there; the root of the drive always is.
abbrev pub Placed : FileSystem → Bytes → Type 0
Placed fs path = (parent path ≡ codes "/dev_hdd0") ⊎ (fs (parent path) ≡ some folder)

-- A file can be made where its folder is and no folder stands, is written and read whole, and paths are independent.
pub record Works (io : Stdio) : Type 0 where
  pub creates :
      (fs : FileSystem) (path : Bytes)
      → fs path ≢ some folder
      → Placed fs path
      → io.create fs path ≡ some (put fs path (file []))
  pub writes :
      (fs : FileSystem) (path bytes : Bytes)
      → io.fwrite (put fs path (file [])) path bytes ≡ put fs path (file bytes)
  pub makes : (fs : FileSystem) (path : Bytes) → io.mkdir fs path ≡ made_folder fs path
  pub unlinks : (fs : FileSystem) (path : Bytes) → io.unlink fs path ≡ remove fs path
  pub opens_files :
      (fs : FileSystem) (path bytes : Bytes) → fs path ≡ some (file bytes) → io.opens fs path ≡ true
  pub sizes :
      (fs : FileSystem) (path bytes : Bytes)
      → fs path ≡ some (file bytes)
      → io.size_of fs path ≡ some (length bytes)
  pub reads :
      (fs : FileSystem) (path bytes : Bytes)
      → fs path ≡ some (file bytes)
      → io.fread fs path (length bytes) ≡ bytes

pub file_exists-file :
    (fs : FileSystem) (path bytes : Bytes)
    → fs path ≡ some (file bytes)
    → file_exists fs path ≡ true
unfolding file_exists
file_exists-file fs path bytes e = rw (e, file_exists) refl

pub file_exists-none :
    (fs : FileSystem) (path : Bytes) → fs path ≡ none → file_exists fs path ≡ false
unfolding file_exists
file_exists-none fs path e = rw (e, file_exists) refl

-- A file that is there is left as it is; where nothing is, the default is written.
abbrev pub kept : Option Node → Bytes → Option Node
kept none blob = some (file blob)
kept (some node) blob = some node

-- Not a folder: a file, or nothing.
pub file_or_none :
    (o : Option Node) → o ≢ some folder → (o ≡ none) ⊎ ((bytes : Bytes) × (o ≡ some (file bytes)))
file_or_none none h = inl refl
file_or_none (some (file bytes)) h = inr (bytes, refl)
file_or_none (some folder) h = absurd (h refl)

module _ (io : Stdio) (works : Works io) where
  pub write_file_lem :
      (fs : FileSystem) (path bytes : Bytes)
      → fs path ≢ some folder
      → Placed fs path
      → write_file io fs path bytes ≡ put fs path (file bytes)
  unfolding write_file
  write_file_lem fs path bytes h p =
      rw (works.creates fs path h p, write_file) (works.writes fs path bytes)

  pub read_file_into_lem :
      (max_size : ℕ) (fs : FileSystem) (path bytes : Bytes)
      → fs path ≡ some (file bytes)
      → length bytes < max_size
      → read_file_into io max_size fs path
        ≡ some (bytes ++ replicate (max_size - length bytes) 0, length bytes)
  unfolding read_file_into read_bytes
  read_file_into_lem max_size fs path bytes e lt =
      rw
        (
          works.opens_files fs path bytes e,
          works.sizes fs path bytes e,
          works.reads fs path bytes e,
          fits,
          ==_self (length bytes),
        )
        refl
    where
      fits : ltb (length bytes) max_size ≡ true
      fits = ground arith

  pub write_default_blob_lem :
      (fs : FileSystem) (path blob : Bytes)
      → fs path ≢ some folder
      → Placed fs path
      → (write_default_blob io fs path blob path ≡ kept (fs path) blob)
        × ((q : Bytes) → same q path ≡ false → write_default_blob io fs path blob q ≡ fs q)
  unfolding write_default_blob
  write_default_blob_lem fs path blob h p = elim (file_or_none (fs path) h) [
    | inl e ↦ rw (file_exists-none fs path e) (
      ap (λ (g : FileSystem). g path) (write_file_lem fs path blob h p)
          ∙ rw (same_self path) (sym (ap (λ o. kept o blob) e)),
      λ q ne. ap (λ (g : FileSystem). g q) (write_file_lem fs path blob h p) ∙ rw ne refl,
    )
    | inr (bytes, e) ↦
        rw (file_exists-file fs path bytes e) (e ∙ sym (ap (λ o. kept o blob) e), λ q ne. refl)
  ]
