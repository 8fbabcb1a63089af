-- ===== src/Create/Created.antt =====
-- What create_torrent of src/aiobt/create.py makes: the length of the pieces, their hashes, and the
-- file that is parsed again.
use aiobt.Create.Serialize.RoundTrip.{parse_torrent_bytes-torrent_to_bytes}
use aiobt.Bencode.Encode.{encode}
use aiobt.Create.Pieces.{hash_pieces-joined, piece_hashes}
use aiobt.Torrent.Parse.{lacks_size, parse_torrent_bytes}
use aiobt.Create.Serialize.{info_to_bencode, torrent_to_bytes}
use aiobt.Python.Decimal.{pos}
use aiobt.Bencode.Value.{dict, Fields}
use aiobt.Python.Result.{>>=-eq-ok, ok-injective, raise_if-eq-ok, subst_ok, ok}
use aiobt.Create.Build.{
  and_digits, chosen_piece_length, optimal_piece_size, create_torrent, FileSpec, info_of, is_single,
  file_entries, contents, total_size, Trackers, min_piece_size,
}
use aiobt.Python.Bytes.{Bytes}
use aiobt.Torrent.{sum_lengths, add, total_length, TorrentInfo, TorrentMeta}
use aiobt.Prelude.{
  All, Bool-cases, sym, false, length-append, joined, length, ◌+◌, Bool, ◌==◌, not, ap, ltb, min,
  ◌∙◌, ◌*◌, max, ◌/◌, ◌⊎◌, ◌-◌, ◌^◌, ◌<◌, ◌%◌, ◌≤◌, List, [], ◌∷◌, none, some, ℕ, zero, suc, Option,
  refl, arith, inl, inr, ◌≡◌,
}

two_digits : (n : ℕ) → (n % 2 ≡ 0) ⊎ (n % 2 ≡ 1)
two_digits n = omega arith

and_digits-same : (f m : ℕ) → m ≤ f → and_digits f m m ≡ m
unfolding and_digits
and_digits-same zero m h = omega arith
and_digits-same (suc f) m h =
    let half = and_digits-same f (m / 2) (omega arith) in
    elim (two_digits m) [ inl e ↦ rw (half, e) (omega arith) | inr e ↦ rw (half, e) (omega arith) ]

-- No digit is in a positive number and the one before it only if it is a power of two.
power_of_two : (f n : ℕ) → n ≤ f → 0 < n → and_digits f n (n - 1) ≡ 0 → (k : ℕ) × (n ≡ 2 ^ k)
unfolding and_digits
power_of_two zero n h p e = absurd (omega arith)
power_of_two (suc f) n h p e = elim (two_digits n) [
  | inl even ↦
      let same : (n - 1) / 2 ≡ n / 2 - 1 = omega arith in
      let all_digits : 0 * ((n - 1) % 2) + 2 * and_digits f (n / 2) (n / 2 - 1) ≡ 0 =
        rw (even, same) at e in
      let rest : and_digits f (n / 2) (n / 2 - 1) ≡ 0 = omega arith in
      let (k, q) = power_of_two f (n / 2) (omega arith) (omega arith) rest in
      (suc k, double k (n / 2) q (omega arith))
  | inr odd ↦
      let same : (n - 1) / 2 ≡ n / 2 = omega arith in
      let even : (n - 1) % 2 ≡ 0 = omega arith in
      let rest : 0 + 2 * and_digits f (n / 2) (n / 2) ≡ 0 = rw (odd, even, same) at e in
      let none_left = and_digits-same f (n / 2) (omega arith) in (0, omega arith)
]
  where
    double : (k m : ℕ) → m ≡ 2 ^ k → n ≡ 2 * m → n ≡ 2 ^ suc k
    double k m q r = r ∙ ap (λ x. 2 * x) q ∙ (let e' : 2 * 2 ^ k ≡ 2 ^ suc k = omega arith in e')

clamp_cases :
    (a y b : ℕ)
    → ((max a (min y b) ≡ a) ⊎ (max a (min y b) ≡ y) ⊎ (max a (min y b) ≡ b))
      × (a ≤ max a (min y b))
clamp_cases a y b = omega arith

abbrev IsPieceLength : ℕ → Type 0
IsPieceLength n = (k : ℕ) × (n ≡ 2 ^ k) × (16384 ≤ n)

optimal-IsPieceLength :
    (exponent : ℕ → ℕ) (total : ℕ) → IsPieceLength (optimal_piece_size exponent total)
optimal-IsPieceLength exponent zero = (14, refl, omega arith)
optimal-IsPieceLength exponent (suc total) =
    let (c, low) = clamp_cases 16384 (2 ^ exponent (suc total)) 16777216 in
    elim c [
      | inl e ↦ (14, e, low)
      | inr (inl e) ↦ (exponent (suc total), e, low)
      | inr (inr e) ↦ (24, e, low)
    ]

chosen-IsPieceLength :
    (exponent : ℕ → ℕ) (total : ℕ) (o : Option ℕ) {n : ℕ}
    → chosen_piece_length exponent total o ≡ ok n
    → IsPieceLength n
unfolding chosen_piece_length
chosen-IsPieceLength exponent total none h =
    subst_ok IsPieceLength h (optimal-IsPieceLength exponent total)
chosen-IsPieceLength exponent total (some m) h =
    let (big, q) = raise_if-eq-ok (ltb m min_piece_size) _ _ h in
    let (single, q') = raise_if-eq-ok (not (and_digits m m (m - 1) == 0)) _ _ q in
    let (k, e) = power_of_two m m (omega arith) (ground arith) (ground arith) in
    subst_ok IsPieceLength q' (k, e, ground arith)

sum_lengths_eq : (l : List FileSpec) → sum_lengths (file_entries l) ≡ pos (total_size l)
unfolding add
sum_lengths_eq [] = refl
sum_lengths_eq (s ∷ l) = rw (sum_lengths_eq l) refl

-- The file has the same size when it is read as when it was scanned.
abbrev pub IsUnchanged : FileSpec → Type 0
IsUnchanged s = s.length ≡ length s.content

length-contents :
    (l : List FileSpec) → All IsUnchanged l → length (joined (contents l)) ≡ total_size l
length-contents [] a = refl
length-contents (s ∷ l) a =
    omega (arith, length-append s.content (joined (contents l)), length-contents l a.1, a.0)

info_of-sized :
    (sha1 : Bytes → Bytes) (root_name : Bytes) (specs : List FileSpec) (n : ℕ) (private : Bool)
    → let info = info_of sha1 root_name specs n private in
      (total_length info ≡ ok (pos (total_size specs)))
      × (lacks_size info.length info.files ≡ false)
unfolding total_length
info_of-sized sha1 root_name specs n private = elim (Bool-cases (is_single specs)) [
  | inl e ↦ rw e (refl, refl)
  | inr e ↦ rw e (ap ok (sum_lengths_eq specs), refl)
]

module _ (sha1 : Bytes → Bytes) (utf8 : Bytes → Bool) (exponent : ℕ → ℕ) (now : ℕ)
    (root_name : Bytes) (specs : List FileSpec) (trackers : Option Trackers)
    (piece_length : Option ℕ) (comment : Option Bytes) (private : Bool) (created_by : Bytes) where
  -- The parts of a call that returns.
  created :
      {meta : TorrentMeta}
      → create_torrent sha1 utf8 exponent now root_name specs trackers piece_length comment private
          created_by
        ≡ ok meta
      → (n : ℕ) × (fs : Fields) × (written : Bytes) × (chosen_piece_length exponent
            (total_size specs)
            piece_length
          ≡ ok n)
        × (info_to_bencode utf8 (info_of sha1 root_name specs n private) ≡ ok fs)
        × (encode (dict fs) ≡ ok written)
        × (meta.info ≡ info_of sha1 root_name specs n private)
        × (meta.info_hash ≡ sha1 written)
  unfolding create_torrent
  created h =
      let (n, p, q) =
        >>=-eq-ok (chosen_piece_length exponent (total_size specs) piece_length) _ h in
      let (fs, p', q') =
        >>=-eq-ok (info_to_bencode utf8 (info_of sha1 root_name specs n private)) _ q in
      let (written, p'', q'') = >>=-eq-ok (encode (dict fs)) _ q' in
      (
        n,
        fs,
        written,
        p,
        p',
        p'',
        ap TorrentMeta.info (ok-injective (sym q'')),
        ap TorrentMeta.info_hash (ok-injective (sym q'')),
      )

  -- A torrent is created with pieces of a power of two of at least 16384 bytes, with the sizes of
  -- all files as they were scanned added up, and with the hashes of the pieces of all files, as they
  -- are read, put together. If no file changed its size in between, the size of the torrent is that
  -- of what was hashed.
  pub create_torrent_lem :
      {meta : TorrentMeta}
      → create_torrent sha1 utf8 exponent now root_name specs trackers piece_length comment private
          created_by
        ≡ ok meta
      → (n : ℕ) × (k : ℕ) × (meta.info.piece_length ≡ pos n)
        × (n ≡ 2 ^ k)
        × (16384 ≤ n)
        × (total_length meta.info ≡ ok (pos (total_size specs)))
        × (All IsUnchanged specs
            → total_length meta.info ≡ ok (pos (length (joined (contents specs)))))
        × (meta.info.pieces_raw ≡ piece_hashes sha1 n (joined (contents specs)))
  create_torrent_lem h =
      let (n, fs, written, p, p', p'', e, e') = created h in
      let (k, power, low) = chosen-IsPieceLength exponent (total_size specs) piece_length p in
      let (size, sized) = info_of-sized sha1 root_name specs n private in
      (
        n,
        k,
        ap TorrentInfo.piece_length e,
        power,
        low,
        ap total_length e ∙ size,
        λ a. ap total_length e ∙ size ∙ ap (λ m. ok (pos m)) (sym (length-contents specs a)),
        ap TorrentInfo.pieces_raw e ∙ hash_pieces-joined sha1 n (contents specs) (omega arith),
      )

  -- A torrent that was created and written is parsed as it was created, its info hash included.
  pub parse_torrent_bytes-create_torrent :
      {meta : TorrentMeta} {b : Bytes}
      → create_torrent sha1 utf8 exponent now root_name specs trackers piece_length comment private
          created_by
        ≡ ok meta
      → torrent_to_bytes utf8 meta ≡ ok b
      → parse_torrent_bytes sha1 b ≡ ok meta
  parse_torrent_bytes-create_torrent {meta} {b} h t =
      let (n, fs, written, p, p', p'', e, e') = created h in
      let (size, sized) = info_of-sized sha1 root_name specs n private in
      let lacks = ap (λ (i : TorrentInfo). lacks_size i.length i.files) e ∙ sized in
      let (gs, again, q, q', parsed) =
        parse_torrent_bytes-torrent_to_bytes sha1 utf8 meta t lacks in
      let same_fields = ok-injective (sym q ∙ ap (info_to_bencode utf8) e ∙ p') in
      let same = ok-injective (sym q' ∙ ap (λ x. encode (dict x)) same_fields ∙ p'') in
      parsed ∙ ap (λ x. ok (record meta { info_hash = x })) (ap sha1 same ∙ sym e')
