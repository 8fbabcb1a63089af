-- ===== src/Bencode/Lookup.antt =====
-- Reading a key of a dict that src/aiobt/bencode.py wrote: sorting the keys does not matter.
use aiobt.Python.Bytes.{bytes_lt, bytes_eq, bytes_eq_refl, bytes_eq-true, Bytes}
use aiobt.Bencode.Value.{no_fields, field, Fields, Value}
use aiobt.Prelude.{
  inr, inl, Bool-cases, if◌then◌else◌, true, ap, none, Bool, ◌∙◌, some, refl, arith, Option, ◌≡◌,
  List, [], ◌∷◌,
}
use aiobt.Bencode.Sorted.{
  sort_keys-IsFresh, from_list, normalize, normalize_fields, IsFresh, HasFreshKeys,
}
use aiobt.Bencode.Encode.{sort_keys, insert_key}
use aiobt.Resume.{lookup}

-- The value that was looked up, as it is read back.
abbrev pub normalized : Option Value → Option Value
normalized none = none
normalized (some v) = some (normalize v)

lookup-insert_key :
    (key j : Bytes) (v : Value) (l : List (Bytes × Value))
    → IsFresh j l
    → lookup key (from_list (insert_key j v l)) ≡ lookup key (field j v (from_list l))
unfolding lookup insert_key
lookup-insert_key key j v [] h = refl
lookup-insert_key key j v ((i, w) ∷ l) h = elim (Bool-cases (bytes_lt i j)) [
  | inl less ↦ rw less (
      ap (λ o. if bytes_eq i key then some w else o) (lookup-insert_key key j v l h.1)
      ∙ apart (bytes_eq i key) (bytes_eq j key) (lookup key (from_list l)) (some w) (some v)
          (λ e e'. cc (bytes_eq-true i key e, bytes_eq-true j key e', bytes_eq_refl i, h.0)))
  | inr more ↦ rw more refl
]
  where
    apart :
        (b c : Bool) (o x y : Option Value)
        → (b ≡ true → c ≡ true → ⊥)
        → (if b then x else if c then y else o) ≡ (if c then y else if b then x else o)
    apart b c o x y n = ground arith

lookup-sort_keys :
    (key : Bytes) (l : List (Bytes × Value))
    → HasFreshKeys l
    → lookup key (from_list (sort_keys l)) ≡ lookup key (from_list l)
unfolding lookup sort_keys
lookup-sort_keys key [] h = refl
lookup-sort_keys key ((j, v) ∷ l) h =
    lookup-insert_key key j v (sort_keys l) (sort_keys-IsFresh j l h.0)
    ∙ ap (λ o. if bytes_eq j key then some v else o) (lookup-sort_keys key l h.1)

lookup-normalize_fields :
    (key : Bytes) (fs : Fields)
    → lookup key (from_list (normalize_fields fs)) ≡ normalized (lookup key fs)
unfolding lookup normalize
lookup-normalize_fields key no_fields = refl
lookup-normalize_fields key (field k v fs) = ground (arith, lookup-normalize_fields key fs)

pub lookup-normalize :
    (key : Bytes) (fs : Fields)
    → HasFreshKeys (normalize_fields fs)
    → lookup key (from_list (sort_keys (normalize_fields fs))) ≡ normalized (lookup key fs)
lookup-normalize key fs h =
    lookup-sort_keys key (normalize_fields fs) h ∙ lookup-normalize_fields key fs
