-- ===== src/Create.antt =====
-- The hashing of pieces in src/aiobt/create.py: _hash_pieces on the contents of the files. The
-- hasher is the bytes that it was given, and hashlib.sha1 is a parameter.
pub mod Pieces
pub mod Serialize
pub mod Build
pub mod Created
mod Examples
use aiobt.Python.Bytes.{Bytes}
use aiobt.Prelude.{drop, ◌++◌, ◌==◌, take, length, if◌then◌else◌, ◌-◌, List, [], ◌∷◌, ℕ, zero, suc}

-- pieces.append(hasher.digest()) and a new hasher, once the piece is full.
abbrev pub after_update : (Bytes → Bytes) → ℕ → Bytes → Bytes → Bytes × Bytes
after_update sha1 piece_length hasher pieces =
    if length hasher == piece_length then ([], pieces ++ sha1 hasher) else (hasher, pieces)

-- The loop over the chunks of a file, which takes at least a byte in each round.
unfoldable pub hash_file : (Bytes → Bytes) → ℕ → ℕ → Bytes × Bytes → Bytes → Bytes × Bytes
hash_file sha1 piece_length zero st file = st
hash_file sha1 piece_length (suc fuel) (hasher, pieces) file =
    let remaining = piece_length - length hasher in
    let chunk = take remaining file in
    let more =
      hash_file sha1 piece_length fuel (after_update sha1 piece_length (hasher ++ chunk) pieces)
        (drop remaining file) in
    if length chunk == 0 then (hasher, pieces) else more

unfoldable pub hash_files : (Bytes → Bytes) → ℕ → Bytes × Bytes → List Bytes → Bytes × Bytes
unfolding hash_file
hash_files sha1 piece_length st [] = st
hash_files sha1 piece_length st (file ∷ files) =
    hash_files sha1 piece_length (hash_file sha1 piece_length (suc (length file)) st file) files

-- The last piece, if some of its bytes came.
abbrev pub finish : (Bytes → Bytes) → Bytes × Bytes → Bytes
finish sha1 (hasher, pieces) = if length hasher == 0 then pieces else pieces ++ sha1 hasher

unfoldable pub hash_pieces : (Bytes → Bytes) → List Bytes → ℕ → Bytes
unfolding hash_files
hash_pieces sha1 files piece_length = finish sha1 (hash_files sha1 piece_length ([], []) files)
