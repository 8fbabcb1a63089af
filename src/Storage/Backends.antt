-- ===== src/Storage/Backends.antt =====
-- The two backends of src/aiobt/storage as backends of src/aiobt/storage/base.py.
use aiobt.Engine.Splice.{length-splice}
use aiobt.Engine.Assembly.{write_blocks_covered, covers, IsBlockOf}
use aiobt.Storage.Disk.Writes.{sync_write-inside, content-put_file_self, write_lem}
use aiobt.Engine.{write_blocks, BlockDict, splice}
use aiobt.Storage.Disk.Reads.{sync_read-inside, read_lem}
use aiobt.Python.Result.{◌>>=◌, Result, ok}
use aiobt.Storage.Disk.Layout.{linear, IsLaid}
use aiobt.Python.Bytes.{Bytes}
use aiobt.Storage.Files.{sync_read, sync_write, put_file, content, or_empty, Files, FilePath}
use aiobt.Storage.Backend.{LinearStorage}
use aiobt.Storage.Disk.{write, read, DiskStorage}
use aiobt.Storage.Compact.{check_ready, read_blob, write_blob, CompactStorage}
use aiobt.Prelude.{
  true, ◌<◌, All, sym, ◌∙◌, refl, ap, arith, drop, none, take, length, some, ◌≡◌, ◌≤◌, Option, ℕ,
  ◌+◌, [], ◌∷◌,
}

disk_write_lem :
    (s : DiskStorage × Files) (offset : ℕ) (b : Bytes)
    → IsLaid s.1 0 s.0.slices
    → offset + length b ≤ length (linear s.1 s.0.slices)
    → (t : DiskStorage × Files) × (write s offset b ≡ ok t)
      × IsLaid t.1 0 t.0.slices
      × (linear t.1 t.0.slices ≡ splice (linear s.1 s.0.slices) offset b)
disk_write_lem (d, fs) offset b laid h =
    let (fs', e, laid', v) = write_lem d fs offset b laid h in ((d, fs'), e, laid', v)

abbrev disk_storage : LinearStorage (DiskStorage × Files)
disk_storage = record {
  backend = record { read = read; write = write };
  view = λ (d, fs). linear fs d.slices;
  IsReady = λ (d, fs). IsLaid fs 0 d.slices;
  read_lem = λ (d, fs). read_lem d fs;
  write_lem = disk_write_lem;
}

-- Writes of one block after the other.
unfoldable pub write_each : DiskStorage × Files → BlockDict → Result (DiskStorage × Files)
write_each s [] = ok s
write_each s ((begin, block) ∷ l) = write s begin block >>= (λ t. write_each t l)

write_each-linear :
    (s : DiskStorage × Files) (data' : Bytes) (l : BlockDict)
    → IsLaid s.1 0 s.0.slices
    → length (linear s.1 s.0.slices) ≡ length data'
    → All (IsBlockOf data') l
    → (t : DiskStorage × Files) × (write_each s l ≡ ok t)
      × IsLaid t.1 0 t.0.slices
      × (linear t.1 t.0.slices ≡ write_blocks (linear s.1 s.0.slices) l)
unfolding write_each write_blocks
write_each-linear s data' [] r n h = (s, refl, r, refl)
write_each-linear s data' ((begin, block) ∷ l) r n h =
    let v = linear s.1 s.0.slices in
    let within : begin + length block ≤ length v = omega (arith, n, h.0.0) in
    let (t, e, r', w) = disk_write_lem s begin block r within in
    let n' : length (linear t.1 t.0.slices) ≡ length data' =
      ap length w ∙ length-splice v begin block within ∙ n in
    let (u, e', r'', w') = write_each-linear t data' l r' n' h.1 in
    (u, rw e e', r'', w' ∙ ap (λ x. write_blocks x l) w)

-- Once DiskStorage has written blocks of the data that cover all of it, in whatever order, to files
-- that are laid out with the size of the data, it reads of every range that range of the data.
pub read-write_each :
    (s : DiskStorage × Files) (data' : Bytes) (l : BlockDict) (offset n : ℕ)
    → IsLaid s.1 0 s.0.slices
    → length (linear s.1 s.0.slices) ≡ length data'
    → All (IsBlockOf data') l
    → ((i : ℕ) → i < length data' → covers l i ≡ true)
    → offset + n ≤ length data'
    → (t : DiskStorage × Files) × (write_each s l ≡ ok t)
      × (read t offset n ≡ ok (take n (drop offset data')))
read-write_each s data' l offset n r m h c k =
    let ((d, fs), e, r', v) = write_each-linear s data' l r m h in
    let whole : linear fs d.slices ≡ data' =
      v ∙ write_blocks_covered data' (linear s.1 s.0.slices) l m h c in
    (
      (d, fs),
      e,
      read_lem d fs offset n r' (omega (arith, ap length whole, k))
          ∙ ap (λ x. ok (take n (drop offset x))) whole,
    )

-- The content of the blob, empty where there is none.
abbrev blob_view : Option FilePath → Files → Bytes
blob_view none fs = []
blob_view (some path) fs = or_empty (content fs path)

-- A blob has been prepared, and its file is there.
abbrev HasBlob : CompactStorage × Files → Type 0
HasBlob (c, fs) =
    (path : FilePath) × (b : Bytes) × (c.blob ≡ some path) × (content fs path ≡ some b)

read_blob_lem :
    (s : CompactStorage × Files) (offset n : ℕ)
    → HasBlob s
    → offset + n ≤ length (blob_view s.0.blob s.1)
    → read_blob s offset n ≡ ok (take n (drop offset (blob_view s.0.blob s.1)))
unfolding read_blob
read_blob_lem (c, fs) offset n (path, b, e, k) h =
    let known : blob_view c.blob fs ≡ b = rw (e, k) refl in
    rw known (
      ap (λ x. check_ready x >>= (λ p. sync_read fs p offset n)) e
      ∙ sync_read-inside fs path offset n k (omega (arith, ap length known, h)))

write_blob_lem :
    (s : CompactStorage × Files) (offset : ℕ) (d : Bytes)
    → HasBlob s
    → offset + length d ≤ length (blob_view s.0.blob s.1)
    → (t : CompactStorage × Files) × (write_blob s offset d ≡ ok t)
      × HasBlob t
      × (blob_view t.0.blob t.1 ≡ splice (blob_view s.0.blob s.1) offset d)
unfolding write_blob
write_blob_lem (c, fs) offset d (path, b, e, k) h =
    let known : blob_view c.blob fs ≡ b = rw (e, k) refl in
    let fs' = put_file fs path (splice b offset d) in
    let after : Files → Result (CompactStorage × Files) = λ x. ok (c, x) in
    let done : FilePath → Result (CompactStorage × Files) = λ p. after (sync_write fs p offset d) in
    let now = content-put_file_self fs path (splice b offset d) in
    (
      (c, fs'),
      ap (λ x. check_ready x >>= done) e
          ∙ ap after (sync_write-inside fs path offset d k (omega (arith, ap length known, h))),
      (path, splice b offset d, e, now),
      ap (λ x. blob_view x fs') e ∙ ap or_empty now ∙ ap (λ x. splice x offset d) (sym known),
    )

abbrev compact_storage : LinearStorage (CompactStorage × Files)
compact_storage = record {
  backend = record { read = read_blob; write = write_blob };
  view = λ (c, fs). blob_view c.blob fs;
  IsReady = HasBlob;
  read_lem = read_blob_lem;
  write_lem = write_blob_lem;
}
