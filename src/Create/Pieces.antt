-- ===== src/Create/Pieces.antt =====
-- The hashes of src/aiobt/create.py are those of the pieces of all files put together.
use aiobt.Python.Bytes.{Bytes}
use aiobt.Create.{finish, hash_pieces, after_update, hash_file, hash_files}
use aiobt.Prelude.{
  drop_all, take_all, append-nil, joined, length-append, suc-ne-zero, drop-append_length, inr,
  ==_iff, append_assoc, take-append_length, take-append-drop, ◌∙◌, inl, Bool-cases, sym, ◌+◌, ap,
  ◌-◌, length-take, refl, take, ◌==◌, length-drop, ◌≤◌, ◌≡◌, if◌then◌else◌, drop, ◌<◌, length, List,
  [], ◌∷◌, ◌++◌, ℕ, zero, suc, arith,
}

module _ (sha1 : Bytes → Bytes) (piece_length : ℕ) where
  -- The hashes of the pieces of a byte string, one after the other.
  unfoldable pub cut : ℕ → Bytes → Bytes
  cut zero data' = []
  cut (suc n) data' =
      let rest = cut n (drop piece_length data') in
      if length data' == 0 then [] else sha1 (take piece_length data') ++ rest

  abbrev pub piece_hashes : Bytes → Bytes
  piece_hashes data' = cut (length data') data'

  cut-more :
      (m n : ℕ) (data' : Bytes)
      → 0 < piece_length
      → length data' ≤ m
      → length data' ≤ n
      → cut m data' ≡ cut n data'
  unfolding cut
  cut-more zero zero data' p h k = refl
  cut-more zero (suc n) [] p h k = refl
  cut-more zero (suc n) (x ∷ l) p h k = absurd (omega arith)
  cut-more (suc m) zero [] p h k = refl
  cut-more (suc m) zero (x ∷ l) p h k = absurd (omega arith)
  cut-more (suc m) (suc n) [] p h k = refl
  cut-more (suc m) (suc n) (x ∷ l) p h k =
      let shorter = length-drop piece_length (x ∷ l) in
      rw (cut-more m n (drop piece_length (x ∷ l)) p (omega arith) (omega arith))

  piece_hashes-append :
      (a r : Bytes)
      → 0 < piece_length
      → length a ≡ piece_length
      → piece_hashes (a ++ r) ≡ sha1 a ++ piece_hashes r
  unfolding cut
  piece_hashes-append [] r p h = absurd (omega arith)
  piece_hashes-append (x ∷ a) r p h =
      let first : take piece_length ((x ∷ a) ++ r) ≡ x ∷ a =
        ap (λ n. take n ((x ∷ a) ++ r)) (sym h) ∙ take-append_length (x ∷ a) r in
      let left : drop piece_length ((x ∷ a) ++ r) ≡ r =
        ap (λ n. drop n ((x ∷ a) ++ r)) (sym h) ∙ drop-append_length (x ∷ a) r in
      rw (suc-ne-zero (length (a ++ r)), first, left)
        (ap (λ c. sha1 (x ∷ a) ++ c)
          (cut-more (length (a ++ r)) (length r) r p (omega (arith, length-append a r))
            (omega arith)))

  regroup :
      (hasher file rest : Bytes) (n : ℕ)
      → hasher ++ (file ++ rest) ≡ (hasher ++ take n file) ++ (drop n file ++ rest)
  regroup hasher file rest n =
      ap (λ f. hasher ++ (f ++ rest)) (sym (take-append-drop n file))
      ∙ ap (λ f. hasher ++ f) (append_assoc (take n file) (drop n file) rest)
      ∙ sym (append_assoc hasher (take n file) (drop n file ++ rest))

  empty : (file : Bytes) (n : ℕ) → 0 < n → length (take n file) ≡ 0 → file ≡ []
  empty [] n p e = refl
  empty (x ∷ file) n p e = absurd (omega (arith, length-take n (x ∷ file)))

  -- Of a state (hasher, pieces): the hasher has less than a piece, and with what is to come it
  -- makes these hashes.
  abbrev IsAt : Bytes × Bytes → Bytes → Bytes → Type 0
  IsAt st rest hashes =
      (length st.0 < piece_length) × (st.1 ++ piece_hashes (st.0 ++ rest) ≡ hashes)

  update-IsAt :
      (hasher pieces chunk rest hashes : Bytes)
      → 0 < piece_length
      → length hasher + length chunk ≤ piece_length
      → pieces ++ piece_hashes ((hasher ++ chunk) ++ rest) ≡ hashes
      → IsAt (after_update sha1 piece_length (hasher ++ chunk) pieces) rest hashes
  update-IsAt hasher pieces chunk rest hashes p h e =
      elim (Bool-cases (length (hasher ++ chunk) == piece_length)) [
        | inl full ↦ rw full (
          p,
          append_assoc pieces (sha1 (hasher ++ chunk)) (piece_hashes rest)
              ∙ ap (λ c. pieces ++ c)
                  (sym (piece_hashes-append (hasher ++ chunk) rest p ((==_iff _ _).0 full)))
              ∙ e,
        )
        | inr part ↦ rw part (ground (arith, length-append hasher chunk, part), e)
      ]

  hash_file-IsAt :
      (fuel : ℕ) (st : Bytes × Bytes) (file rest hashes : Bytes)
      → 0 < piece_length
      → length file < fuel
      → IsAt st (file ++ rest) hashes
      → IsAt (hash_file sha1 piece_length fuel st file) rest hashes
  unfolding hash_file
  hash_file-IsAt zero st file rest hashes p h i = absurd (omega arith)
  hash_file-IsAt (suc fuel) (hasher, pieces) file rest hashes p h (short, e) =
      let remaining = piece_length - length hasher in
      let some_left : 0 < remaining = omega arith in
      elim (Bool-cases (length (take remaining file) == 0)) [
        | inl z ↦
            let none_left = empty file remaining some_left ((==_iff _ _).0 z) in
            rw z
              (short, ap (λ f. pieces ++ piece_hashes (hasher ++ (f ++ rest))) (sym none_left) ∙ e)
        | inr z ↦
            let next =
              update-IsAt hasher pieces (take remaining file) (drop remaining file ++ rest) hashes p
                (omega (arith, length-take remaining file))
                (ap (λ f. pieces ++ piece_hashes f) (sym (regroup hasher file rest remaining))
                  ∙ e) in
            rw z (
              hash_file-IsAt fuel _ (drop remaining file) rest hashes p
                (ground (arith, z, length-take remaining file, length-drop remaining file)) next)
      ]

  hash_files-IsAt :
      (st : Bytes × Bytes) (files : List Bytes) (hashes : Bytes)
      → 0 < piece_length
      → IsAt st (joined files) hashes
      → IsAt (hash_files sha1 piece_length st files) [] hashes
  unfolding hash_files
  hash_files-IsAt st [] hashes p i = i
  hash_files-IsAt st (file ∷ files) hashes p i =
      hash_files-IsAt (hash_file sha1 piece_length (suc (length file)) st file) files hashes p
        (hash_file-IsAt (suc (length file)) st file (joined files) hashes p (omega arith) i)

  cut-nil : (n : ℕ) → cut n [] ≡ []
  unfolding cut
  cut-nil zero = refl
  cut-nil (suc n) = refl

  finish-IsAt :
      (hasher pieces : Bytes)
      → length hasher < piece_length
      → finish sha1 (hasher, pieces) ≡ pieces ++ piece_hashes (hasher ++ [])
  unfolding cut
  finish-IsAt [] pieces h = sym (append-nil pieces)
  finish-IsAt (x ∷ l) pieces h =
      let whole : take piece_length (x ∷ l) ≡ x ∷ l = take_all piece_length (x ∷ l) (omega arith) in
      let left : drop piece_length (x ∷ l) ≡ [] = drop_all piece_length (x ∷ l) (omega arith) in
      rw (
        append-nil l,
        suc-ne-zero (length l),
        whole,
        left,
        cut-nil (length l),
        append-nil (sha1 (x ∷ l)),
      )

  -- For a positive piece length the hashes are those of the pieces of all files put together: a
  -- piece may span several files.
  pub hash_pieces-joined :
      (files : List Bytes)
      → 0 < piece_length
      → hash_pieces sha1 files piece_length ≡ piece_hashes (joined files)
  unfolding hash_pieces
  hash_pieces-joined files p =
      let (short, e) = hash_files-IsAt ([], []) files (piece_hashes (joined files)) p (p, refl) in
      finish-IsAt _ _ short ∙ e
