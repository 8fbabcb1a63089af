-- ===== src/Storage/Disk/Reads.antt =====
-- DiskStorage.read of src/aiobt/storage/disk.py against the linear array.
use aiobt.Python.Result.{ok}
use aiobt.Storage.Disk.Layout.{filter-behind, length-linear, linear, IsLaid, total_of}
use aiobt.Storage.Disk.{overlaps, FileSlice, read, DiskStorage, slices_for, read_slices}
use aiobt.Python.Bytes.{Bytes}
use aiobt.Storage.Files.{content, FilePath, Files, sync_read}
use aiobt.Prelude.{
  take_all, ◌<◌, min, sym, leb, inl, inr, Bool-cases, filter, max, List, refl, length-take,
  take-append_right, take-append_left, ◌∙◌, true, ◌==◌, drop-append_right, drop-append_left,
  length-drop, arith, some, ap, ◌≡◌, drop, take, length, ◌≤◌, ℕ, ◌+◌, ◌-◌, [], ◌∷◌, ◌++◌,
}

-- A read inside one file.
pub sync_read-inside :
    (fs : Files) (p : FilePath) (offset n : ℕ) {b : Bytes}
    → content fs p ≡ some b
    → offset + n ≤ length b
    → sync_read fs p offset n ≡ ok (take n (drop offset b))
unfolding sync_read
sync_read-inside fs p offset n {b} e h =
    let whole : (length (take n (drop offset b)) == n) ≡ true =
      ground (arith, length-take n (drop offset b), length-drop offset b) in
    rw e (rw whole refl)

-- The range of a concatenation: inside its first part, or across the seam.
pub range_first :
    (i n : ℕ) (b v : Bytes) → i + n ≤ length b → take n (drop i (b ++ v)) ≡ take n (drop i b)
range_first i n b v h =
    ap (take n) (drop-append_left i b v (omega arith))
    ∙ take-append_left n (drop i b) v (omega (arith, length-drop i b))

pub range_across :
    (i n : ℕ) (b v : Bytes)
    → i ≤ length b
    → length b ≤ i + n
    → take n (drop i (b ++ v)) ≡ drop i b ++ take (i + n - length b) v
range_across i n b v h k =
    let left : n - length (drop i b) ≡ i + n - length b = omega (arith, length-drop i b, h, k) in
    ap (take n) (drop-append_left i b v h)
    ∙ take-append_right n (drop i b) v (omega (arith, length-drop i b, k))
    ∙ ap (λ m. drop i b ++ take m v) left

range_second :
    (i n : ℕ) (b v : Bytes)
    → length b ≤ i
    → take n (drop i (b ++ v)) ≡ take n (drop (i - length b) v)
range_second i n b v h = ap (take n) (drop-append_right i b v h)

range_seam :
    (i m n k : ℕ) (b v : Bytes)
    → i ≤ length b
    → m ≡ length b - i
    → length b ≤ i + n
    → k ≡ 0
    → take m (drop i b) ++ take (n - m) (drop k v) ≡ take n (drop i (b ++ v))
range_seam i m n k b v h e f z =
    let first : take m (drop i b) ≡ drop i b =
      take_all m (drop i b) (omega (arith, length-drop i b, e)) in
    let rest : n - m ≡ i + n - length b = omega (arith, e, h) in
    rw (first, z, rest) (sym (range_across i n b v h f))

-- The loop over the slices that overlap [o, o + len), from torrent offset t on: c is where it
-- stands, with r bytes remaining.
read_slices_lem :
    (fs : Files) (t o len c r : ℕ) (l : List FileSlice)
    → IsLaid fs t l
    → o + len ≤ t + total_of l
    → c ≡ max o t
    → r ≡ o + len - c
    → read_slices fs (filter (overlaps o (o + len)) l) c r
      ≡ ok (take r (drop (c - t) (linear fs l)))
unfolding read_slices
read_slices_lem fs t o len c r [] laid h p q =
    let none_left : r ≡ 0 = omega (arith, h, p, q) in rw none_left refl
read_slices_lem fs t o len c r (sl ∷ l) ((b, e, n), z, s, d, laid) h p q =
    elim (Bool-cases (overlaps o (o + len) sl)) [
      | inr out ↦
          rw (out, e)
            (elim (Bool-cases (leb (o + len) t)) [
              | inl last ↦
                  let none_left : r ≡ 0 = ground (arith, p, q) in
                  let behind : o + len ≤ t + sl.length = ground arith in
                  rw (filter-behind fs (t + sl.length) o (o + len) l behind laid, none_left) refl
              | inr more ↦
                  let before : t + sl.length ≤ o = ground (arith, s) in
                  let shift : c - t - length b ≡ c - (t + sl.length) = omega (arith, n) in
                  read_slices_lem fs (t + sl.length) o len c r l laid (omega (arith, h))
                    (omega (arith, p, before)) q
                  ∙ ap ok (
                      sym (
                        range_second (c - t) r b (linear fs l) (omega (arith, n, p, before))
                        ∙ ap (λ k. take r (drop k (linear fs l))) shift))
            ])
      | inl hit ↦
          let m = min r (sl.length - (c - sl.torrent_offset)) in
          let at : sl.file_offset + (c - sl.torrent_offset) ≡ c - t = omega (arith, s, z) in
          let early : t < o + len = ground (arith, s) in
          let late : o < t + sl.length = ground (arith, s) in
          rw
            (
              hit,
              sync_read-inside fs sl.path (sl.file_offset + (c - sl.torrent_offset)) m e
                  (omega (arith, n, s, z, p, late)),
              e,
              at,
            )
            (elim (Bool-cases (r - m == 0)) [
              | inl done ↦ rw done (
                  ap ok (
                    ap (λ k. take k (drop (c - t) b)) (ground (arith, done))
                    ∙ sym (
                        range_first (c - t) r b (linear fs l)
                          (ground (arith, done, n, s, p, late)))))
              | inr more ↦
                  let full : m ≡ length b - (c - t) = ground (arith, more, n, s) in
                  rw
                    (
                      more,
                      read_slices_lem fs (t + sl.length) o len (c + m) (r - m) l laid
                          (omega (arith, h)) (omega (arith, full, n, p, late, early))
                          (omega (arith, q)),
                    )
                    (ap ok (
                      range_seam (c - t) m r (c + m - (t + sl.length)) b (linear fs l)
                        (omega (arith, n, p, late)) full (ground (arith, more, full))
                        (omega (arith, full, n, p, late))))
            ])
    ]

-- A read inside the data of a torrent whose files are laid out gives that range of the linear
-- array, across the files.
pub read_lem :
    (d : DiskStorage) (fs : Files) (offset n : ℕ)
    → IsLaid fs 0 d.slices
    → offset + n ≤ length (linear fs d.slices)
    → read (d, fs) offset n ≡ ok (take n (drop offset (linear fs d.slices)))
unfolding read slices_for
read_lem d fs offset n laid h =
    let start : offset - 0 ≡ offset = omega arith in
    rw start at (
      read_slices_lem fs 0 offset n offset n d.slices laid
        (omega (arith, length-linear fs 0 d.slices laid, h)) (omega arith) (omega arith))
