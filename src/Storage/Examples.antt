-- ===== src/Storage/Examples.antt =====
-- A torrent of two files on disk, and the theorems of the modules beside this one at it.
use aiobt.Storage.Disk.Reads.{read_lem}
use aiobt.Storage.Disk.Writes.{write_lem}
use aiobt.Storage.Backends.{read-write_each, write_each}
use aiobt.Python.Result.{ok}
use aiobt.Storage.Disk.Prepare.{Fits, HasDistinctPaths, prepare_files-IsLaid}
use aiobt.Torrent.{FileEntry}
use aiobt.Storage.Disk.Layout.{linear, IsLaid}
use aiobt.Engine.Assembly.{IsBlockOf, covers}
use aiobt.Storage.Files.{FilePath, content, Files}
use aiobt.Engine.{splice, BlockDict}
use aiobt.Python.Bytes.{bytes_eq, Bytes}
use aiobt.Storage.Disk.{
  slices_of, new_disk, open_disk, write, prepare_files, DiskStorage, slice_files, read,
}
use aiobt.Prelude.{
  length, ap, inl, drop, replicate, take, refl, true, arith, some, ◌≡◌, get_elem?, List, ◌<◌, All,
  ℕ, zero, suc, ◌+◌, [], ◌∷◌, ◌++◌,
}

-- Parts joined by slashes.
abbrev join_parts : List Bytes → FilePath
join_parts [] = []
join_parts (p ∷ l) = b'/' ∷ (p ++ join_parts l)

abbrev entries : List FileEntry
entries =
    record { path = (b'a' ∷ []) ∷ []; length = 3 }
    ∷ record { path = (b'b' ∷ []) ∷ (b'c' ∷ []) ∷ []; length = 4 }
    ∷ []

abbrev torrent_name : Bytes
torrent_name = b't' ∷ []

abbrev opened : DiskStorage
opened = open_disk new_disk 7 4

abbrev prepared : DiskStorage × Files
prepared = prepare_files join_parts opened [] (some entries) torrent_name

distinct : HasDistinctPaths (slices_of join_parts opened (some entries) torrent_name)
unfolding slice_files bytes_eq
distinct = ((refl, (refl, tt)))

none_there : All (Fits []) (slices_of join_parts opened (some entries) torrent_name)
unfolding slice_files content
none_there = (inl refl, (inl refl, tt))

prepare_files-IsLaid_example : IsLaid prepared.1 0 prepared.0.slices
prepare_files-IsLaid_example =
    prepare_files-IsLaid join_parts opened [] (some entries) torrent_name distinct none_there

linear-prepared : linear prepared.1 prepared.0.slices ≡ replicate 7 0
unfolding prepare_files content bytes_eq
linear-prepared = refl

write_lem_example :
    (fs' : Files) × (write prepared 2 (8 ∷ 9 ∷ []) ≡ ok (prepared.0, fs'))
    × IsLaid fs' 0 prepared.0.slices
    × (linear fs' prepared.0.slices ≡ splice (linear prepared.1 prepared.0.slices) 2 (8 ∷ 9 ∷ []))
write_lem_example =
    write_lem prepared.0 prepared.1 2 (8 ∷ 9 ∷ []) prepare_files-IsLaid_example
      (omega (arith, ap length linear-prepared))

read_lem_example : read prepared 1 5 ≡ ok (take 5 (drop 1 (linear prepared.1 prepared.0.slices)))
read_lem_example =
    read_lem prepared.0 prepared.1 1 5 prepare_files-IsLaid_example
      (omega (arith, ap length linear-prepared))

abbrev torrent_data : Bytes
torrent_data = 1 ∷ 2 ∷ 3 ∷ 4 ∷ 5 ∷ 6 ∷ 7 ∷ []

-- The second piece came first.
abbrev torrent_pieces : BlockDict
torrent_pieces = (4, 5 ∷ 6 ∷ 7 ∷ []) ∷ (0, 1 ∷ 2 ∷ 3 ∷ 4 ∷ []) ∷ []

tail_piece : (i : ℕ) → i < 3 → get_elem? (5 ∷ 6 ∷ 7 ∷ []) i ≡ get_elem? torrent_data (4 + i)
tail_piece zero h = refl
tail_piece (suc zero) h = refl
tail_piece (suc (suc zero)) h = refl
tail_piece (suc (suc (suc i))) h = absurd (omega arith)

head_piece : (i : ℕ) → i < 4 → get_elem? (1 ∷ 2 ∷ 3 ∷ 4 ∷ []) i ≡ get_elem? torrent_data (0 + i)
head_piece zero h = refl
head_piece (suc zero) h = refl
head_piece (suc (suc zero)) h = refl
head_piece (suc (suc (suc zero))) h = refl
head_piece (suc (suc (suc (suc i)))) h = absurd (omega arith)

pieces-IsBlockOf : All (IsBlockOf torrent_data) torrent_pieces
pieces-IsBlockOf = ((omega arith, tail_piece), ((omega arith, head_piece), tt))

covers_pieces : (i : ℕ) → i < 7 → covers torrent_pieces i ≡ true
unfolding covers
covers_pieces i h = ground arith

read-write_each_example :
    (t : DiskStorage × Files) × (write_each prepared torrent_pieces ≡ ok t)
    × (read t 2 4 ≡ ok (take 4 (drop 2 torrent_data)))
read-write_each_example =
    read-write_each prepared torrent_data torrent_pieces 2 4 prepare_files-IsLaid_example
      (ap length linear-prepared) pieces-IsBlockOf covers_pieces (omega arith)
