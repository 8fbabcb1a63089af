-- ===== src/Storage/Files.antt =====
-- FileQueue of src/aiobt/storage/queue.py, on a map from paths to contents. The descriptors
-- `_ReadOp` and `_WriteOp` are the arguments; directories are not modelled, and a write is one step,
-- as the lock makes it.
use aiobt.Python.Bytes.{bytes_eq_sym, bytes_eq-true, Bytes, bytes_eq}
use aiobt.Prelude.{
  refl, subst, ◌∙◌, false, inr, arith, ◌==◌, inl, length, drop, Bool-cases, replicate, some,
  if◌then◌else◌, take, ◌≡◌, none, Option, List, ℕ, suc, ◌+◌, ◌-◌, [], ◌∷◌, ◌++◌,
}
use aiobt.Python.Result.{Result, ok, raised, os_error}

abbrev pub FilePath : Type 0
FilePath = Bytes

abbrev pub Files : Type 0
Files = List (FilePath × Bytes)

unfoldable pub content : Files → FilePath → Option Bytes
unfolding bytes_eq
content [] p = none
content ((q, b) ∷ fs) p = if bytes_eq q p then some b else content fs p

unfoldable pub put_file : Files → FilePath → Bytes → Files
unfolding bytes_eq
put_file [] p b = (p, b) ∷ []
put_file ((q, c) ∷ fs) p b =
    let rest = put_file fs p b in if bytes_eq q p then (q, b) ∷ fs else (q, c) ∷ rest

-- seek and write: a gap behind the end is filled with zeros, and writing nothing leaves the file.
abbrev pub write_at : Bytes → ℕ → Bytes → Bytes
write_at old offset [] = old
write_at old offset (c ∷ d) =
    take offset old
    ++ (replicate (offset - length old) 0 ++ ((c ∷ d) ++ drop (offset + suc (length d)) old))

abbrev pub check_read : Bytes → ℕ → Result Bytes
check_read b n = if length b == n then ok b else raised (os_error "short read")

abbrev pub read_content : Option Bytes → ℕ → ℕ → Result Bytes
read_content none offset n = raised (os_error "no such file")
read_content (some b) offset n = check_read (take n (drop offset b)) n

unfoldable pub sync_read : Files → FilePath → ℕ → ℕ → Result Bytes
unfolding content
sync_read fs p offset n = read_content (content fs p) offset n

-- A missing file is created empty.
abbrev pub or_empty : Option Bytes → Bytes
or_empty none = []
or_empty (some b) = b

unfoldable pub sync_write : Files → FilePath → ℕ → Bytes → Files
unfolding content put_file
sync_write fs p offset b = put_file fs p (write_at (or_empty (content fs p)) offset b)

abbrev pub ensure_content : Files → FilePath → ℕ → Option Bytes → Files
ensure_content fs p n none = put_file fs p (replicate n 0)
ensure_content fs p n (some b) = fs

unfoldable pub sync_ensure : Files → FilePath → ℕ → Files
unfolding content put_file
sync_ensure fs p n = ensure_content fs p n (content fs p)

abbrev pub size_of : Option Bytes → Result ℕ
size_of none = raised (os_error "no such file")
size_of (some b) = ok (length b)

unfoldable pub sync_size : Files → FilePath → Result ℕ
unfolding content
sync_size fs p = size_of (content fs p)

-- A map law.
pub content-put_file :
    (fs : Files) (p q : FilePath) (b : Bytes)
    → content (put_file fs p b) q ≡ (if bytes_eq p q then some b else content fs q)
unfolding content put_file
content-put_file [] p q b = refl
content-put_file ((r, c) ∷ fs) p q b = elim (Bool-cases (bytes_eq r p)) [
  | inl e ↦ rw (e, bytes_eq-true r p e) (ground arith)
  | inr e ↦ rw e (elim (Bool-cases (bytes_eq r q)) [
    | inl k ↦
        let other : bytes_eq p q ≡ false =
          bytes_eq_sym p q ∙ subst (λ x. bytes_eq x p ≡ false) (bytes_eq-true r q k) e in
        rw (k, other) refl
    | inr k ↦ rw k (content-put_file fs p q b)
  ])
]
