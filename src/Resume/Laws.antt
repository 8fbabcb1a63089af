-- ===== src/Resume/Laws.antt =====
-- Saving and loading by src/aiobt/resume.py, on payloads and on any file.
use aiobt.Bencode.Decode.{decode}
use aiobt.Python.Range.{has-range_where}
use aiobt.Bencode.Value.{list, bytes, int, dict, Value, Fields}
use aiobt.Prelude.{
  zero, ◌∙◌, subst, ap, Bool-cases, true, ℕ, suc, ◌<◌, Option, none, some, All, ◌≡◌, refl, arith,
  inl, inr,
}
use aiobt.Python.Bytes.{bytes_eq-true, Bytes, bytes_eq, bytes_lt, bytes_eq_refl}
use aiobt.Python.Result.{ok-injective, ok}
use aiobt.Python.Decimal.{negsuc, pos}
use aiobt.Python.IntSet.{IntSet, has}
use aiobt.Bencode.Decode.Total.{decode-total}
use aiobt.Bencode.Encode.{encode, insert_key, sort_keys}
use aiobt.Bencode.Sorted.{normalize, IsDict}
use aiobt.Bencode.RoundTrip.{decode-encode}
use aiobt.Bitfield.{have_bit, bitfield_to_have}
use aiobt.Bitfield.Laws.{bitfield_to_have-have_to_bitfield}
use aiobt.Resume.{
  load_bits, key_piece_count, key_info_hash, count_of, is_hash, ResumeData, saved_dict, save_resume,
  lookup, load_dict, load_resume,
}

saved-IsDict : (hash bits : Bytes) (n d u : ℕ) → IsDict (saved_dict hash bits n d u)
unfolding IsDict normalize bytes_eq
saved-IsDict hash bits n d u = ground arith

load-saved :
    (hash bits : Bytes) (n d u : ℕ)
    → load_dict hash (normalize (saved_dict hash bits (suc n) d u))
      ≡ some (record {
        info_hash = hash;
        have = bitfield_to_have bits (suc n);
        downloaded = pos d;
        uploaded = pos u;
      })
unfolding load_dict normalize lookup sort_keys insert_key bytes_lt bytes_eq
load-saved hash bits n d u = rw (bytes_eq_refl hash)

-- What was saved for some pieces and counters loads as data with the same hash, the same pieces and
-- the same counters, where the pieces are below a positive count.
pub load_resume-save_resume :
    (hash : Bytes) (have : IntSet) (n d u : ℕ) {file : Bytes}
    → All (λ i. i < suc n) have
    → save_resume hash have (suc n) d u ≡ ok file
    → (data' : ResumeData) × (load_resume (some file) hash ≡ ok (some data'))
      × (data'.info_hash ≡ hash)
      × ((i : ℕ) → has i data'.have ≡ has i have)
      × (data'.downloaded ≡ pos d)
      × (data'.uploaded ≡ pos u)
unfolding save_resume load_resume
load_resume-save_resume hash have n d u {file} h e =
    let (bits, b, same) = bitfield_to_have-have_to_bitfield have (suc n) h in
    let written : encode (saved_dict hash bits (suc n) d u) ≡ ok file = rw b at e in
    let read =
      decode-encode (saved_dict hash bits (suc n) d u) (saved-IsDict hash bits (suc n) d u)
        written in
    (
      record {
        info_hash = hash;
        have = bitfield_to_have bits (suc n);
        downloaded = pos d;
        uploaded = pos u;
      },
      rw (read, load-saved hash bits n d u),
      refl,
      same,
      refl,
      refl,
    )

-- But for the interpreter's recursion limit, which is not modelled: whatever the file holds, or if
-- it cannot be read, the result is data or none.
pub load_resume-total :
    (file : Option Bytes) (hash : Bytes) → (r : Option ResumeData) × (load_resume file hash ≡ ok r)
unfolding load_resume
load_resume-total none hash = (none, refl)
load_resume-total (some file) hash = elim (decode-total file) [
  | inl (v, e) ↦ (load_dict hash v, rw e)
  | inr (m, e) ↦ (none, rw e)
]

none-ne-some {ℓ} : {A : Type ℓ} {a : A} → none ≡ some a → ⊥
none-ne-some e = cc

subst_some {ℓ κ} : {A : Type ℓ} (P : A → Type κ) {a b : A} → some a ≡ some b → P a → P b
subst_some P e h = subst P (cc) h

-- A dict that loads names the hash, and a positive count.
record Loaded (hash : Bytes) (v : Value) (loaded : ResumeData) : Type 0 where
  fields : Fields
  is_dict : v ≡ dict fields
  same_hash : loaded.info_hash ≡ hash
  saved_hash : lookup key_info_hash fields ≡ some (bytes hash)
  count : ℕ
  saved_count : lookup key_piece_count fields ≡ some (int (pos (suc count)))
  within : (i : ℕ) → has i loaded.have ≡ true → i < suc count

is_hash-eq : (hash : Bytes) (o : Option Value) → is_hash hash o ≡ true → o ≡ some (bytes hash)
is_hash-eq hash none h = cc
is_hash-eq hash (some (bytes b)) h = ap (λ x. some (bytes x)) (bytes_eq-true b hash h)
is_hash-eq hash (some (int z)) h = cc
is_hash-eq hash (some (list z)) h = cc
is_hash-eq hash (some (dict z)) h = cc

count_of-eq : (n : ℕ) (o : Option Value) → count_of o ≡ suc n → o ≡ some (int (pos (suc n)))
count_of-eq n none h = absurd (omega (arith, h))
count_of-eq n (some (int (pos m))) h = ap (λ x. some (int (pos x))) h
count_of-eq n (some (int (negsuc m))) h = absurd (omega (arith, h))
count_of-eq n (some (bytes b)) h = absurd (omega (arith, h))
count_of-eq n (some (list z)) h = absurd (omega (arith, h))
count_of-eq n (some (dict z)) h = absurd (omega (arith, h))

bitfield_to_have-within : (bits : Bytes) (n i : ℕ) → has i (bitfield_to_have bits n) ≡ true → i < n
unfolding bitfield_to_have
bitfield_to_have-within bits n i h = ground (arith, has-range_where (have_bit bits) 0 n i)

load_bits-Loaded :
    (hash : Bytes) (fs : Fields) (n : ℕ) (bits : Option Bytes) {d : ResumeData}
    → count_of (lookup key_piece_count fs) ≡ n
    → lookup key_info_hash fs ≡ some (bytes hash)
    → load_bits hash fs n bits ≡ some d
    → Loaded hash (dict fs) d
load_bits-Loaded hash fs zero bits k h e = cc
load_bits-Loaded hash fs (suc n) none k h e = cc
load_bits-Loaded hash fs (suc n) (some bits) {d} k h e =
    subst_some (Loaded hash (dict fs)) e (record {
      fields = fs;
      is_dict = refl;
      same_hash = refl;
      saved_hash = h;
      count = n;
      saved_count = count_of-eq n _ k;
      within = bitfield_to_have-within bits (suc n);
    })

load_dict-Loaded :
    (hash : Bytes) (v : Value) {d : ResumeData} → load_dict hash v ≡ some d → Loaded hash v d
unfolding load_dict
load_dict-Loaded hash (dict fs) e = elim (Bool-cases (is_hash hash (lookup key_info_hash fs))) [
  | inl k ↦ load_bits-Loaded hash fs _ _ refl (is_hash-eq hash _ k) (rw k at e)
  | inr k ↦ absurd (none-ne-some (rw k at e))
]
load_dict-Loaded hash (int z) e = cc
load_dict-Loaded hash (bytes z) e = cc
load_dict-Loaded hash (list z) e = cc

-- What loads names the hash that was asked for, and was decoded from a dict that holds this hash
-- and a positive piece count; every piece of it is below that count.
pub load_resume_sound :
    (file : Bytes) (hash : Bytes) {loaded : ResumeData}
    → load_resume (some file) hash ≡ ok (some loaded)
    → (fs : Fields) × (n : ℕ) × (decode file ≡ ok (dict fs))
      × (loaded.info_hash ≡ hash)
      × (lookup key_info_hash fs ≡ some (bytes hash))
      × (lookup key_piece_count fs ≡ some (int (pos (suc n))))
      × ((i : ℕ) → has i loaded.have ≡ true → i < suc n)
unfolding load_resume
load_resume_sound file hash {loaded} e = elim (decode-total file) [
  | inl (v, d) ↦
      let l = load_dict-Loaded hash v (ok-injective (rw d at e)) in
      (l.fields, l.count, d ∙ ap ok l.is_dict, l.same_hash, l.saved_hash, l.saved_count, l.within)
  | inr (m, d) ↦ absurd (none-ne-some (ok-injective (rw d at e)))
]
