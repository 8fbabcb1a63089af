-- ===== src/Storage/Disk/Layout.antt =====
-- The linear byte array that the slices of src/aiobt/storage/disk.py lay over the files.
use aiobt.Storage.Disk.{overlaps, FileSlice}
use aiobt.Python.Bytes.{bytes_eq_sym, bytes_eq, Bytes}
use aiobt.Storage.Files.{content-put_file, put_file, content, or_empty, FilePath, Files}
use aiobt.Prelude.{
  refl, ◌∙◌, length-append, ◌||◌, false, some, arith, filter, ◌≡◌, ◌≤◌, length, Bool, List, ℕ, ◌+◌,
  [], ◌∷◌, ◌++◌,
}

-- The contents of the files, one after the other.
abbrev pub linear : Files → List FileSlice → Bytes
linear fs [] = []
linear fs (sl ∷ l) = or_empty (content fs sl.path) ++ linear fs l

abbrev pub has_path : FilePath → List FileSlice → Bool
has_path p [] = false
has_path p (sl ∷ l) = bytes_eq sl.path p || has_path p l

-- From a torrent offset on, each slice is a whole file of its length that starts where the one
-- before it ends, and no file is that of two slices.
abbrev pub IsLaid : Files → ℕ → List FileSlice → Type 0
IsLaid fs t [] = Unit
IsLaid fs t (sl ∷ l) =
    ((b : Bytes) × (content fs sl.path ≡ some b) × (length b ≡ sl.length))
    × (sl.file_offset ≡ 0)
    × (sl.torrent_offset ≡ t)
    × (has_path sl.path l ≡ false)
    × IsLaid fs (t + sl.length) l

-- A file of no slice may change.
pub content-others :
    (fs : Files) (p : FilePath) (b : Bytes) (sl : FileSlice)
    → bytes_eq sl.path p ≡ false
    → content (put_file fs p b) sl.path ≡ content fs sl.path
content-others fs p b sl h = content-put_file fs p sl.path b ∙ rw (bytes_eq_sym p sl.path ∙ h) refl

module _ (fs : Files) (p : FilePath) (b : Bytes) where
  pub linear-put_file :
      (l : List FileSlice) → has_path p l ≡ false → linear (put_file fs p b) l ≡ linear fs l
  linear-put_file [] h = refl
  linear-put_file (sl ∷ l) h =
      let here : bytes_eq sl.path p ≡ false = ground arith in
      let later : has_path p l ≡ false = ground arith in
      rw (content-others fs p b sl here, linear-put_file l later) refl

  pub put_file-IsLaid :
      (t : ℕ) (l : List FileSlice)
      → has_path p l ≡ false
      → IsLaid fs t l
      → IsLaid (put_file fs p b) t l
  put_file-IsLaid t [] h laid = tt
  put_file-IsLaid t (sl ∷ l) h ((c, e, n), o, s, d, laid) =
      let here : bytes_eq sl.path p ≡ false = ground arith in
      let later : has_path p l ≡ false = ground arith in
      (
        (c, content-others fs p b sl here ∙ e, n),
        o,
        s,
        d,
        put_file-IsLaid (t + sl.length) l later laid,
      )

abbrev pub total_of : List FileSlice → ℕ
total_of [] = 0
total_of (sl ∷ l) = sl.length + total_of l

pub length-linear :
    (fs : Files) (t : ℕ) (l : List FileSlice) → IsLaid fs t l → length (linear fs l) ≡ total_of l
length-linear fs t [] h = refl
length-linear fs t (sl ∷ l) ((b, e, n), o, s, d, laid) =
    rw e (omega (arith, length-append b (linear fs l), length-linear fs (t + sl.length) l laid, n))

-- Slices at and behind the end of a range are not picked for it.
pub filter-behind :
    (fs : Files) (t o e : ℕ) (l : List FileSlice)
    → e ≤ t
    → IsLaid fs t l
    → filter (overlaps o e) l ≡ []
filter-behind fs t o e [] h laid = refl
filter-behind fs t o e (sl ∷ l) h (c, z, s, d, laid) =
    let out : overlaps o e sl ≡ false = ground (arith, s) in
    rw out (filter-behind fs (t + sl.length) o e l (omega (arith, h)) laid)
