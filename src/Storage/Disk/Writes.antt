-- ===== src/Storage/Disk/Writes.antt =====
-- DiskStorage.write of src/aiobt/storage/disk.py against the linear array.
use aiobt.Engine.Splice.{splice-append_left, splice_seam, length-splice, splice-append_right}
use aiobt.Python.Result.{ok}
use aiobt.Storage.Disk.Layout.{
  put_file-IsLaid, linear-put_file, filter-behind, has_path, length-linear, total_of, linear,
  IsLaid,
}
use aiobt.Storage.Files.{content-put_file, sync_write, put_file, content, FilePath, write_at, Files}
use aiobt.Storage.Disk.{overlaps, DiskStorage, FileSlice, slices_for, write, write_slices}
use aiobt.Python.Bytes.{bytes_eq_refl, Bytes}
use aiobt.Prelude.{
  length-drop, take_all, ◌==◌, ◌<◌, min, length-take, some, leb, inl, inr, Bool-cases, false,
  take-append-drop, ◌∙◌, filter, refl, arith, max, drop, sym, take, ◌≤◌, ap, ◌≡◌, length, List, ℕ,
  ◌+◌, ◌-◌, [], ◌∷◌, ◌++◌,
}
use aiobt.Engine.{splice}

splice-nil : (b : Bytes) (i : ℕ) → splice b i [] ≡ b
splice-nil b i = ap (λ k. take i b ++ drop k b) (omega arith) ∙ take-append-drop i b

-- A write inside a file.
write_at-splice :
    (old : Bytes) (i : ℕ) (d : Bytes)
    → i + length d ≤ length old
    → write_at old i d ≡ splice old i d
write_at-splice old i [] h = sym (splice-nil old i)
write_at-splice old i (c ∷ d) h =
    let no_gap : i - length old ≡ 0 = omega (arith, h) in rw no_gap refl

-- What the writes to some slices leave: the linear array with the bytes in their place, and every
-- other file as it was.
record Written (fs fs' : Files) (t i : ℕ) (d : Bytes) (l : List FileSlice) : Type 0 where
  laid : IsLaid fs' t l
  changed : linear fs' l ≡ splice (linear fs l) i d
  others : (p : FilePath) → has_path p l ≡ false → content fs' p ≡ content fs p

pub sync_write-inside :
    (fs : Files) (p : FilePath) (i : ℕ) (d : Bytes) {b : Bytes}
    → content fs p ≡ some b
    → i + length d ≤ length b
    → sync_write fs p i d ≡ put_file fs p (splice b i d)
unfolding sync_write
sync_write-inside fs p i d {b} e h = rw e (ap (put_file fs p) (write_at-splice b i d h))

pub content-put_file_self :
    (fs : Files) (p : FilePath) (b : Bytes) → content (put_file fs p b) p ≡ some b
content-put_file_self fs p b = content-put_file fs p p b ∙ rw (bytes_eq_refl p) refl

Written-nothing :
    (fs : Files) (t i : ℕ) (d : Bytes) (l : List FileSlice)
    → length d ≡ 0
    → IsLaid fs t l
    → Written fs fs t i d l
Written-nothing fs t i [] l h laid = record {
  laid = laid;
  changed = sym (splice-nil (linear fs l) i);
  others = λ p k. refl;
}
Written-nothing fs t i (c ∷ d) l h laid = absurd (omega (arith, h))

-- The steps of the loop at a slice whose file is b.
module _ (fs : Files) (t : ℕ) (sl : FileSlice) (l : List FileSlice) (b : Bytes)
    (e : content fs sl.path ≡ some b) (n : length b ≡ sl.length) (z : sl.file_offset ≡ 0)
    (s : sl.torrent_offset ≡ t) (d : has_path sl.path l ≡ false)
    (laid : IsLaid fs (t + sl.length) l) where
  Written-before :
      (fs' : Files) (i j : ℕ) (left : Bytes)
      → length b ≤ i
      → j ≡ i - length b
      → Written fs fs' (t + sl.length) j left l
      → Written fs fs' t i left (sl ∷ l)
  Written-before fs' i j left h k w =
      let same : content fs' sl.path ≡ some b = w.others sl.path d ∙ e in
      record {
        laid = ((b, same, n), z, s, d, w.laid);
        changed =
            rw (same, e)
              (ap (λ x. b ++ x) (w.changed ∙ ap (λ x. splice (linear fs l) x left) k)
                ∙ sym (splice-append_right b (linear fs l) i left h));
        others = λ p out. w.others p (ground (arith, out));
      }

  Written-inside :
      (i : ℕ) (left : Bytes)
      → i + length left ≤ length b
      → Written fs (put_file fs sl.path (splice b i left)) t i left (sl ∷ l)
  Written-inside i left h =
      let c = splice b i left in
      let now = content-put_file_self fs sl.path c in
      record {
        laid = (
          (c, now, length-splice b i left h ∙ n),
          z,
          s,
          d,
          put_file-IsLaid fs sl.path c (t + sl.length) l d laid,
        );
        changed =
            rw (now, e, linear-put_file fs sl.path c l d)
              (sym (splice-append_left b (linear fs l) i left h));
        others = λ p out. content-put_file fs sl.path p c ∙ ground (arith, out);
      }

  Written-across :
      (fs' : Files) (i m k : ℕ) (left : Bytes)
      → i ≤ length b
      → m ≡ length b - i
      → m ≤ length left
      → k ≡ 0
      → Written
          (put_file fs sl.path (splice b i (take m left)))
          fs'
          (t + sl.length)
          k
          (drop m left)
          l
      → Written fs fs' t i left (sl ∷ l)
  Written-across fs' i m k left h f g o w =
      let c = splice b i (take m left) in
      let now : content fs' sl.path ≡ some c =
        w.others sl.path d ∙ content-put_file_self fs sl.path c in
      let fits : i + length (take m left) ≤ length b = omega (arith, length-take m left, h, f, g) in
      record {
        laid = ((c, now, length-splice b i (take m left) fits ∙ n), z, s, d, w.laid);
        changed =
            rw (now, e)
              (ap (λ x. c ++ x)
                  (w.changed
                    ∙ ap (λ x. splice x k (drop m left)) (linear-put_file fs sl.path c l d))
                ∙ splice_seam b (linear fs l) i m k left h f g o);
        others = λ p out.
            w.others p (ground (arith, out))
            ∙ (content-put_file fs sl.path p c ∙ ground (arith, out));
      }

-- The loop over the slices that overlap [o, o + len), from torrent offset t on: c is where it
-- stands, with the bytes `left`.
write_slices-Written :
    (fs : Files) (t o len c : ℕ) (left : Bytes) (l : List FileSlice)
    → IsLaid fs t l
    → o + len ≤ t + total_of l
    → c ≡ max o t
    → length left ≡ o + len - c
    → Written fs (write_slices fs (filter (overlaps o (o + len)) l) c left) t (c - t) left l
unfolding write_slices
write_slices-Written fs t o len c left [] laid h p q =
    Written-nothing fs t (c - t) left [] (omega (arith, h, p, q)) tt
write_slices-Written fs t o len c left (sl ∷ l) ((b, e, n), z, s, d, laid) h p q =
    elim (Bool-cases (overlaps o (o + len) sl)) [
      | inr out ↦ rw out (elim (Bool-cases (leb (o + len) t)) [
        | inl last ↦
            let behind : o + len ≤ t + sl.length = ground arith in
            rw (filter-behind fs (t + sl.length) o (o + len) l behind laid) (
              Written-nothing fs t (c - t) left (sl ∷ l) (ground (arith, p, q))
                ((b, e, n), z, s, d, laid))
        | inr more ↦
            let before : t + sl.length ≤ o = ground (arith, s) in
            Written-before fs t sl l b e n z s d laid
              (write_slices fs (filter (overlaps o (o + len)) l) c left) (c - t)
              (c - (t + sl.length)) left (omega (arith, n, p, before)) (omega (arith, n))
              (write_slices-Written fs (t + sl.length) o len c left l laid (omega (arith, h))
                (omega (arith, p, before)) q)
      ])
      | inl hit ↦
          let m = min (length left) (sl.length - (c - sl.torrent_offset)) in
          let at : sl.file_offset + (c - sl.torrent_offset) ≡ c - t = omega (arith, s, z) in
          let early : t < o + len = ground (arith, s) in
          let late : o < t + sl.length = ground (arith, s) in
          rw
            (
              hit,
              at,
              sync_write-inside fs sl.path (c - t) (take m left) e
                  (omega (arith, length-take m left, n, s, p, late)),
            )
            (elim (Bool-cases (length left - m == 0)) [
              | inl done ↦
                  let whole : take m left ≡ left = take_all m left (ground (arith, done)) in
                  rw (done, whole)
                    (Written-inside fs t sl l b e n z s d laid (c - t) left
                      (ground (arith, done, n, s, p, late)))
              | inr more ↦
                  let full : m ≡ length b - (c - t) = ground (arith, more, n, s) in
                  let fs1 = put_file fs sl.path (splice b (c - t) (take m left)) in
                  rw more (
                    Written-across fs t sl l b e n z s d laid
                      (write_slices fs1 (filter (overlaps o (o + len)) l) (c + m) (drop m left))
                      (c - t) m (c + m - (t + sl.length)) left (omega (arith, n, p, late)) full
                      (ground (arith, more)) (omega (arith, full, n, p, late))
                      (write_slices-Written fs1 (t + sl.length) o len (c + m) (drop m left) l
                        (put_file-IsLaid fs sl.path (splice b (c - t) (take m left)) (t + sl.length)
                          l d laid)
                        (omega (arith, h)) (omega (arith, full, n, p, late, early))
                        (omega (arith, length-drop m left, q))))
            ])
    ]

-- A write inside the data of a torrent whose files are laid out puts the bytes in their place in
-- the linear array, across the files, and the files stay laid out.
pub write_lem :
    (d : DiskStorage) (fs : Files) (offset : ℕ) (b : Bytes)
    → IsLaid fs 0 d.slices
    → offset + length b ≤ length (linear fs d.slices)
    → (fs' : Files) × (write (d, fs) offset b ≡ ok (d, fs'))
      × IsLaid fs' 0 d.slices
      × (linear fs' d.slices ≡ splice (linear fs d.slices) offset b)
unfolding write slices_for
write_lem d fs offset b laid h =
    let fs' = write_slices fs (slices_for d offset (length b)) offset b in
    let start : offset - 0 ≡ offset = omega arith in
    let w : Written fs fs' 0 offset b d.slices = rw start at (
      write_slices-Written fs 0 offset (length b) offset b d.slices laid
        (omega (arith, length-linear fs 0 d.slices laid, h)) (omega arith) (omega arith)) in
    (fs', refl, w.laid, w.changed)
