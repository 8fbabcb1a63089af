-- ===== src/Storage/Disk/Prepare.antt =====
-- DiskStorage.prepare_files of src/aiobt/storage/disk.py: the files that it leaves.
use aiobt.Storage.Disk.Layout.{IsLaid, has_path}
use aiobt.Torrent.{FileEntry}
use aiobt.Python.Bytes.{bytes_eq_refl, bytes_eq_sym, bytes_eq, Bytes}
use aiobt.Storage.Files.{content-put_file, content, FilePath, Files, sync_ensure}
use aiobt.Storage.Disk.{slices_of, DiskStorage, FileSlice, slice_files, ensure_files, prepare_files}
use aiobt.Prelude.{
  length-replicate, inr, replicate, inl, ◌∙◌, Option-cases, length, arith, ◌⊎◌, some, refl, false,
  none, Option, ◌≡◌, All, List, ℕ, ◌+◌, [], ◌∷◌,
}

-- No two slices have the same file.
abbrev pub HasDistinctPaths : List FileSlice → Type 0
HasDistinctPaths [] = Unit
HasDistinctPaths (sl ∷ l) = (has_path sl.path l ≡ false) × HasDistinctPaths l

-- The file of the slice is missing, or there with its length.
abbrev pub Fits : Files → FileSlice → Type 0
Fits fs sl =
    (content fs sl.path ≡ none)
    ⊎ ((b : Bytes) × (content fs sl.path ≡ some b) × (length b ≡ sl.length))

-- The slices start at an offset and follow one another, each at the start of its file.
abbrev Follow : ℕ → List FileSlice → Type 0
Follow t [] = Unit
Follow t (sl ∷ l) = (sl.file_offset ≡ 0) × (sl.torrent_offset ≡ t) × Follow (t + sl.length) l

slice_files-Follow :
    (join : List Bytes → FilePath) (name : Bytes) (t : ℕ) (l : List FileEntry)
    → Follow t (slice_files join name t l)
unfolding slice_files
slice_files-Follow join name t [] = tt
slice_files-Follow join name t (entry ∷ l) =
    (refl, refl, slice_files-Follow join name (t + entry.length) l)

slices_of-Follow :
    (join : List Bytes → FilePath) (d : DiskStorage) (files : Option (List FileEntry))
    (name : Bytes)
    → Follow 0 (slices_of join d files name)
slices_of-Follow join d none name = (refl, refl, tt)
slices_of-Follow join d (some l) name = slice_files-Follow join name 0 l

-- What ensuring a file does to it, and to the others.
ensure_self :
    (fs : Files) (sl : FileSlice)
    → Fits fs sl
    → (b : Bytes) × (content (sync_ensure fs sl.path sl.length) sl.path ≡ some b)
      × (length b ≡ sl.length)
unfolding sync_ensure
ensure_self fs sl (inl missing) =
    let zeros : Bytes = replicate sl.length 0 in
    rw missing (
      zeros,
      content-put_file fs sl.path sl.path zeros ∙ rw (bytes_eq_refl sl.path) refl,
      length-replicate sl.length 0,
    )
ensure_self fs sl (inr (b, e, n)) = rw e (b, e, n)

ensure_other :
    (fs : Files) (p q : FilePath) (n : ℕ)
    → bytes_eq p q ≡ false
    → content (sync_ensure fs p n) q ≡ content fs q
unfolding sync_ensure
ensure_other fs p q n h = elim (Option-cases (content fs p)) [
  | inl e ↦ rw e (content-put_file fs p q (replicate n 0) ∙ rw h refl)
  | inr (b, e) ↦ rw e refl
]

ensure_files-others :
    (fs : Files) (l : List FileSlice) (p : FilePath)
    → has_path p l ≡ false
    → content (ensure_files fs l) p ≡ content fs p
unfolding ensure_files
ensure_files-others fs [] p h = refl
ensure_files-others fs (sl ∷ l) p h =
    ensure_files-others (sync_ensure fs sl.path sl.length) l p (ground arith)
    ∙ ensure_other fs sl.path p sl.length (ground arith)

All-Fits :
    (fs : Files) (p : FilePath) (n : ℕ) (l : List FileSlice)
    → has_path p l ≡ false
    → All (Fits fs) l
    → All (Fits (sync_ensure fs p n)) l
All-Fits fs p n [] h fits = tt
All-Fits fs p n (sl ∷ l) h fits =
    let apart : bytes_eq p sl.path ≡ false = bytes_eq_sym p sl.path ∙ ground arith in
    (rw (ensure_other fs p sl.path n apart) fits.0, All-Fits fs p n l (ground arith) fits.1)

ensure_files-IsLaid :
    (fs : Files) (t : ℕ) (l : List FileSlice)
    → Follow t l
    → HasDistinctPaths l
    → All (Fits fs) l
    → IsLaid (ensure_files fs l) t l
unfolding ensure_files
ensure_files-IsLaid fs t [] f d fits = tt
ensure_files-IsLaid fs t (sl ∷ l) (z, s, f) (d, ds) fits =
    let fs' = sync_ensure fs sl.path sl.length in
    let (b, e, n) = ensure_self fs sl fits.0 in
    (
      (b, ensure_files-others fs' l sl.path d ∙ e, n),
      z,
      s,
      d,
      ensure_files-IsLaid fs' (t + sl.length) l f ds (All-Fits fs sl.path sl.length l d fits.1),
    )

-- Where the files of a torrent have different paths, and each is missing or there with its length,
-- preparing them lays them out: whole files in the order of the torrent, from offset 0 on.
pub prepare_files-IsLaid :
    (join : List Bytes → FilePath) (d : DiskStorage) (fs : Files) (files : Option (List FileEntry))
    (name : Bytes)
    → HasDistinctPaths (slices_of join d files name)
    → All (Fits fs) (slices_of join d files name)
    → IsLaid (prepare_files join d fs files name).1 0 (prepare_files join d fs files name).0.slices
unfolding prepare_files
prepare_files-IsLaid join d fs files name h fits =
    ensure_files-IsLaid fs 0 (slices_of join d files name) (slices_of-Follow join d files name) h
      fits
