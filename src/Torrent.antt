-- ===== src/Torrent.antt =====
-- The data of src/aiobt/torrent.py and what its properties and methods compute. A text is its UTF-8
-- bytes, as they are decoded with surrogateescape, which loses nothing.
pub mod Parse
pub mod Facts
pub mod Urls
mod Examples
use aiobt.Python.Result.{◌>>◌, index_error, value_error, raised, ok, raise_if, Result}
use aiobt.Python.Decimal.{ℤ, pos, negsuc}
use aiobt.Python.Bytes.{bytes_eq, Bytes}
use aiobt.Prelude.{
  ◌-◌, suc, drop, ◌/◌, take, ◌==◌, ◌*◌, ◌%◌, ◌||◌, length, ◌+◌, [], not, ltb, false, none, ◌++◌,
  if◌then◌else◌, some, Bool, Option, ◌∷◌, ℕ, List,
}

pub record FileEntry : Type 0 where
  pub path : List Bytes
  pub length : ℕ

-- An entry as it is parsed, whose length may be any integer; the storage is opened with entries of
-- non-negative lengths.
pub record ParsedFile : Type 0 where
  pub path : List Bytes
  pub length : ℤ

pub record TorrentInfo : Type 0 where
  pub name : Bytes
  pub piece_length : ℤ
  pub pieces_raw : Bytes
  pub length : Option ℤ
  pub files : Option (List ParsedFile)
  pub private : Bool

pub record TorrentMeta : Type 0 where
  pub info : TorrentInfo
  pub info_hash : Bytes
  pub announce : Option Bytes
  pub announce_list : Option (List (List Bytes))
  pub creation_date : Option ℤ
  pub comment : Option Bytes
  pub created_by : Option Bytes

-- Addition of integers.
unfoldable pub add : ℤ → ℤ → ℤ
add (pos a) (pos b) = pos (a + b)
add (negsuc a) (negsuc b) = negsuc (suc (a + b))
add (pos a) (negsuc b) = if ltb b a then pos (a - suc b) else negsuc (b - a)
add (negsuc a) (pos b) = if ltb a b then pos (b - suc a) else negsuc (a - b)

abbrev pub sum_lengths : List ParsedFile → ℤ
sum_lengths [] = pos 0
sum_lengths (f ∷ l) = add f.length (sum_lengths l)

unfoldable pub total_length : TorrentInfo → Result ℤ
unfolding add
total_length info = elim info.length [
  | some n ↦ ok n
  | none ↦ (elim info.files [
    | some l ↦ ok (sum_lengths l)
    | none ↦ raised (value_error "torrent has neither length nor files")
  ])
]

unfoldable pub piece_count : TorrentInfo → Result ℕ
piece_count info =
    raise_if (not (length info.pieces_raw % 20 == 0)) (value_error "not a multiple of 20")
    >> ok (length info.pieces_raw / 20)

-- An index is non-negative.
unfoldable pub piece_hash : TorrentInfo → ℕ → Result Bytes
piece_hash info index =
    raise_if (ltb (length info.pieces_raw) (index * 20 + 20)) index_error
    >> ok (take 20 (drop (index * 20) info.pieces_raw))

-- url in seen
unfoldable pub holds : Bytes → List Bytes → Bool
unfolding bytes_eq
holds u [] = false
holds u (v ∷ l) = bytes_eq v u || holds u l

-- The URLs of a list that were not seen, each once, in order.
unfoldable pub add_urls : List Bytes → List Bytes → List Bytes
unfolding holds
add_urls urls [] = urls
add_urls urls (u ∷ l) = add_urls (if holds u urls then urls else urls ++ (u ∷ [])) l

abbrev pub first_url : Option Bytes → List Bytes
first_url (some (c ∷ r)) = (c ∷ r) ∷ []
first_url _ = []

abbrev pub add_tiers : List Bytes → List (List Bytes) → List Bytes
add_tiers urls [] = urls
add_tiers urls (t ∷ l) = add_tiers (add_urls urls t) l

abbrev pub listed_urls : Option (List (List Bytes)) → List Bytes → List Bytes
listed_urls none urls = urls
listed_urls (some tiers) urls = add_tiers urls tiers

unfoldable pub tracker_urls : TorrentMeta → List Bytes
unfolding add_urls
tracker_urls meta = listed_urls meta.announce_list (first_url meta.announce)
