-- ===== src/Storage/Backend.antt =====
-- StorageBackend of src/aiobt/storage/base.py: its read and its write, and what is asked of a backend
-- where a theorem is about its bytes.
use aiobt.Python.Bytes.{Bytes}
use aiobt.Prelude.{drop, take, ◌≡◌, length, ◌≤◌, ℕ, ◌+◌}
use aiobt.Python.Result.{Result, ok}
use aiobt.Engine.{splice}

pub record StorageBackend (S : Type 0) : Type 0 where
  pub read : S → ℕ → ℕ → Result Bytes
  pub write : S → ℕ → Bytes → Result S

-- A backend that reads and writes the linear piece space, here a byte string `view`: as the
-- docstrings of base.py say, `offset` is relative to the torrent's linear data. `splice` puts bytes
-- in the place of as many.
pub record LinearStorage (S : Type 0) : Type 1 where
  pub backend : StorageBackend S
  pub view : S → Bytes
  pub IsReady : S → Type 0
  pub read_lem :
      (s : S) (offset n : ℕ)
      → IsReady s
      → offset + n ≤ length (view s)
      → StorageBackend.read backend s offset n ≡ ok (take n (drop offset (view s)))
  pub write_lem :
      (s : S) (offset : ℕ) (b : Bytes)
      → IsReady s
      → offset + length b ≤ length (view s)
      → (t : S) × (StorageBackend.write backend s offset b ≡ ok t)
        × IsReady t
        × (view t ≡ splice (view s) offset b)
