-- ===== src/Storage/Disk.antt =====
-- src/aiobt/storage/disk.py: DiskStorage, with the files that it writes. The path of a file is
-- computed from its parts by `join`, which stands for pathlib and the root directory.
pub mod Layout
pub mod Reads
pub mod Writes
pub mod Prepare
use aiobt.Python.Bytes.{Bytes}
use aiobt.Storage.Files.{sync_ensure, sync_read, FilePath, sync_write, Files}
use aiobt.Prelude.{
  ◌==◌, if◌then◌else◌, none, drop, some, take, Option, min, length, ◌&&◌, ltb, filter, List, Bool,
  ℕ, zero, suc, ◌+◌, ◌-◌, [], ◌∷◌, ◌++◌,
}
use aiobt.Python.Result.{◌>>=◌, Result, ok, raised, os_error}
use aiobt.Torrent.{FileEntry}

pub record FileSlice : Type 0 where
  pub path : FilePath
  pub file_offset : ℕ
  pub torrent_offset : ℕ
  pub length : ℕ

pub record DiskStorage : Type 0 where
  pub slices : List FileSlice
  pub total_length : ℕ
  pub piece_length : ℕ

abbrev pub new_disk : DiskStorage
new_disk = record { slices = []; total_length = 0; piece_length = 0 }

-- DiskStorage.open
unfoldable pub open_disk : DiskStorage → ℕ → ℕ → DiskStorage
open_disk d total piece = record d { total_length = total; piece_length = piece }

-- The loop over the entries, from an offset on: the slices, and the files once all are ensured.
unfoldable pub slice_files : (List Bytes → FilePath) → Bytes → ℕ → List FileEntry → List FileSlice
slice_files join name offset [] = []
slice_files join name offset (entry ∷ l) =
    record {
      path = join (name ∷ entry.path);
      file_offset = 0;
      torrent_offset = offset;
      length = entry.length;
    }
    ∷ slice_files join name (offset + entry.length) l

unfoldable pub ensure_files : Files → List FileSlice → Files
unfolding sync_ensure
ensure_files fs [] = fs
ensure_files fs (sl ∷ l) = ensure_files (sync_ensure fs sl.path sl.length) l

-- The slices of either mode.
abbrev pub slices_of :
    (List Bytes → FilePath) → DiskStorage → Option (List FileEntry) → Bytes → List FileSlice
slices_of join d none name =
    record { path = join (name ∷ []); file_offset = 0; torrent_offset = 0; length = d.total_length }
    ∷ []
slices_of join d (some entries) name = slice_files join name 0 entries

unfoldable pub prepare_files :
    (List Bytes → FilePath)
    → DiskStorage
    → Files
    → Option (List FileEntry)
    → Bytes
    → DiskStorage × Files
unfolding slice_files ensure_files
prepare_files join d fs files name =
    let slices' = slices_of join d files name in
    (record d { slices = slices' }, ensure_files fs slices')

abbrev pub overlaps : ℕ → ℕ → FileSlice → Bool
overlaps offset end' sl = ltb sl.torrent_offset end' && ltb offset (sl.torrent_offset + sl.length)

unfoldable pub slices_for : DiskStorage → ℕ → ℕ → List FileSlice
slices_for d offset n = filter (overlaps offset (offset + n)) d.slices

-- The loop of `read`, from an offset on with some bytes remaining. `offset - torrent_offset` stops
-- at 0, as the source makes it do.
unfoldable pub read_slices : Files → List FileSlice → ℕ → ℕ → Result Bytes
unfolding sync_read
read_slices fs [] offset remaining = ok []
read_slices fs (sl ∷ l) offset remaining =
    let into_slice = offset - sl.torrent_offset in
    let to_read = min remaining (sl.length - into_slice) in
    let rest = read_slices fs l (offset + to_read) (remaining - to_read) in
    sync_read fs sl.path (sl.file_offset + into_slice) to_read >>= (λ chunk.
      if remaining - to_read == 0 then ok chunk else rest >>= (λ later. ok (chunk ++ later)))

unfoldable pub read : DiskStorage × Files → ℕ → ℕ → Result Bytes
unfolding slices_for read_slices
read (d, fs) offset n = read_slices fs (slices_for d offset n) offset n

-- The loop of `write`, with the bytes from `pos` on.
unfoldable pub write_slices : Files → List FileSlice → ℕ → Bytes → Files
unfolding sync_write
write_slices fs [] offset left = fs
write_slices fs (sl ∷ l) offset left =
    let into_slice = offset - sl.torrent_offset in
    let to_write = min (length left) (sl.length - into_slice) in
    let fs' = sync_write fs sl.path (sl.file_offset + into_slice) (take to_write left) in
    let rest = write_slices fs' l (offset + to_write) (drop to_write left) in
    if length left - to_write == 0 then fs' else rest

unfoldable pub write : DiskStorage × Files → ℕ → Bytes → Result (DiskStorage × Files)
unfolding slices_for write_slices
write (d, fs) offset b = ok (d, write_slices fs (slices_for d offset (length b)) offset b)

unfoldable pub close : DiskStorage → DiskStorage
close d = record d { slices = [] }
