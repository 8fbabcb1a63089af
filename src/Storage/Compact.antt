-- ===== src/Storage/Compact.antt =====
-- src/aiobt/storage/compact.py: CompactStorage, with the files that it writes. The path of the blob
-- is computed by `blob_path`, which stands for pathlib and the root directory.
use aiobt.Python.Result.{◌>>=◌, ok, runtime_error, raised, Result}
use aiobt.Python.Bytes.{Bytes}
use aiobt.Storage.Files.{FilePath, Files, sync_ensure, sync_read, sync_write}
use aiobt.Prelude.{some, none, Option, ℕ}

pub record CompactStorage : Type 0 where
  pub blob : Option FilePath
  pub total_length : ℕ
  pub piece_length : ℕ

abbrev pub new_compact : CompactStorage
new_compact = record { blob = none; total_length = 0; piece_length = 0 }

-- CompactStorage.open
unfoldable pub open_compact : CompactStorage → ℕ → ℕ → CompactStorage
open_compact c total piece = record c { total_length = total; piece_length = piece }

unfoldable pub prepare :
    (Bytes → FilePath) → CompactStorage → Files → Bytes → CompactStorage × Files
unfolding sync_ensure
prepare blob_path c fs info_hash_hex =
    let path = blob_path info_hash_hex in
    (record c { blob = some path }, sync_ensure fs path c.total_length)

-- _check_ready, with the path that it leaves
abbrev pub check_ready : Option FilePath → Result FilePath
check_ready none = raised runtime_error
check_ready (some path) = ok path

unfoldable pub read_blob : CompactStorage × Files → ℕ → ℕ → Result Bytes
unfolding sync_read
read_blob (c, fs) offset n = do path ← check_ready c.blob; sync_read fs path offset n

unfoldable pub write_blob : CompactStorage × Files → ℕ → Bytes → Result (CompactStorage × Files)
unfolding sync_write
write_blob (c, fs) offset b = do path ← check_ready c.blob; ok (c, sync_write fs path offset b)

unfoldable pub close_blob : CompactStorage → CompactStorage
close_blob c = record c { blob = none }
