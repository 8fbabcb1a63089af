-- ===== src/Engine/Splice.antt =====
-- The elements of a byte string that a slice was written into.
use aiobt.Engine.{splice}
use aiobt.Python.Bytes.{Bytes}
use aiobt.Prelude.{
  take-append-drop, sym, append-nil, append_assoc, drop-append_left, drop-append_right,
  take-append_left, take-append_right, drop_all, length-drop, subst, ◌&&◌, length-take, ◌-◌, ◌∙◌,
  length-append, leb, ltb, refl, none, arith, if◌then◌else◌, ap, ◌≡◌, take, ◌++◌, drop, ◌≤◌, ◌+◌,
  ◌<◌, get_elem?, length, ℕ, suc, zero, [], ◌∷◌,
}

pub get_elem?-beyond : (b : Bytes) (i : ℕ) → length b ≤ i → get_elem? b i ≡ none
get_elem?-beyond [] i h = refl
get_elem?-beyond (c ∷ b) zero h = absurd (omega arith)
get_elem?-beyond (c ∷ b) (suc i) h = get_elem?-beyond b i (omega arith)

get_elem?-append :
    (a b : Bytes) (i : ℕ)
    → get_elem? (a ++ b) i
      ≡ (if ltb i (length a) then get_elem? a i else get_elem? b (i - length a))
get_elem?-append [] b i = ground arith
get_elem?-append (c ∷ a) b zero = ground arith
get_elem?-append (c ∷ a) b (suc i) = ground (arith, get_elem?-append a b i)

get_elem?-take : (n i : ℕ) (b : Bytes) → i < n → get_elem? (take n b) i ≡ get_elem? b i
get_elem?-take zero i b h = absurd (omega arith)
get_elem?-take (suc n) i [] h = refl
get_elem?-take (suc n) zero (c ∷ b) h = refl
get_elem?-take (suc n) (suc i) (c ∷ b) h = get_elem?-take n i b (omega arith)

get_elem?-drop : (n i : ℕ) (b : Bytes) → get_elem? (drop n b) i ≡ get_elem? b (n + i)
get_elem?-drop zero i b = ap (get_elem? b) (omega arith)
get_elem?-drop (suc n) i [] = refl
get_elem?-drop (suc n) i (c ∷ b) =
    let next : suc (n + i) ≡ suc n + i = omega arith in
    get_elem?-drop n i b ∙ ap (get_elem? (c ∷ b)) next

-- Bytes with the same elements are the same.
pub bytes_ext : (a b : Bytes) → ((i : ℕ) → get_elem? a i ≡ get_elem? b i) → a ≡ b
bytes_ext [] [] h = refl
bytes_ext [] (c ∷ b) h = cc (h 0)
bytes_ext (c ∷ a) [] h = cc (h 0)
bytes_ext (c ∷ a) (d ∷ b) h = let rest = bytes_ext a b (λ i. h (suc i)) in let first = h 0 in cc

pub length-splice :
    (buf : Bytes) (begin : ℕ) (block : Bytes)
    → begin + length block ≤ length buf
    → length (splice buf begin block) ≡ length buf
length-splice buf begin block h = omega (
  arith,
  length-append (take begin buf) (block ++ drop (begin + length block) buf),
  length-append block (drop (begin + length block) buf),
  length-take begin buf,
  length-drop (begin + length block) buf,
)

pub get_elem?-splice :
    (buf : Bytes) (begin : ℕ) (block : Bytes) (i : ℕ)
    → begin + length block ≤ length buf
    → get_elem? (splice buf begin block) i ≡ (
        if leb begin i && ltb i (begin + length block)
        then get_elem? block (i - begin)
        else get_elem? buf i)
get_elem?-splice buf begin block i h =
    let rest = drop (begin + length block) buf in
    let short : length (take begin buf) ≡ begin = omega (arith, length-take begin buf) in
    let shift : ¬ (i < begin + length block)
        → begin + length block + (i - begin - length block) ≡ i =
      λ out. omega (arith, out) in
    let behind : ¬ (i < begin + length block)
        → get_elem? rest (i - begin - length block) ≡ get_elem? buf i =
      λ out.
        get_elem?-drop (begin + length block) (i - begin - length block) buf
        ∙ ap (get_elem? buf) (shift out) in
    let whole : get_elem? (splice buf begin block) i ≡ (
        if ltb i begin
        then get_elem? (take begin buf) i
        else get_elem? (block ++ rest) (i - begin)) =
      subst
        (λ n.
          get_elem? (splice buf begin block) i
          ≡ (if ltb i n then get_elem? (take begin buf) i else get_elem? (block ++ rest) (i - n)))
        short (get_elem?-append (take begin buf) (block ++ rest) i) in
    ground
      (arith, whole, get_elem?-append block rest (i - begin), get_elem?-take begin i buf, behind)

-- Splicing in a concatenation: in its first part, in its second part, and across the seam.
pub splice-append_left :
    (b v : Bytes) (i : ℕ) (d : Bytes)
    → i + length d ≤ length b
    → splice (b ++ v) i d ≡ splice b i d ++ v
splice-append_left b v i d h =
    rw (take-append_left i b v (omega (arith, h)), drop-append_left (i + length d) b v h)
      (simp append_assoc)

pub splice-append_right :
    (b v : Bytes) (k : ℕ) (d : Bytes)
    → length b ≤ k
    → splice (b ++ v) k d ≡ b ++ splice v (k - length b) d
splice-append_right b v k d h =
    let shift : k + length d - length b ≡ k - length b + length d = omega (arith, h) in
    rw (take-append_right k b v h, drop-append_right (k + length d) b v (omega (arith, h)), shift)
      (simp append_assoc)

pub splice_seam :
    (b v : Bytes) (i m k : ℕ) (d : Bytes)
    → i ≤ length b
    → m ≡ length b - i
    → m ≤ length d
    → k ≡ 0
    → splice b i (take m d) ++ splice v k (drop m d) ≡ splice (b ++ v) i d
splice_seam b v i m k d h e f z =
    let none_left : drop (i + length (take m d)) b ≡ [] =
      drop_all (i + length (take m d)) b (omega (arith, length-take m d, h, e, f)) in
    let shift : i + length d - length b ≡ k + length (drop m d) =
      omega (arith, length-drop m d, h, e, f, z) in
    let begun : take k v ≡ [] = ap (λ n. take n v) z in
    rw
      (
        none_left,
        begun,
        take-append_left i b v h,
        drop-append_right (i + length d) b v (omega (arith, h, e, f)),
        shift,
      )
      (simp (append-nil, append_assoc)
        (ap (λ x. take i b ++ x)
          (sym (append_assoc (take m d) (drop m d) (drop (k + length (drop m d)) v))
            ∙ ap (λ x. x ++ drop (k + length (drop m d)) v) (take-append-drop m d))))
