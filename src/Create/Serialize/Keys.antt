-- ===== src/Create/Serialize/Keys.antt =====
-- The dicts that src/aiobt/create.py builds key by key, as the decoder reads them back.
use aiobt.Bencode.Encode.{sort_keys}
use aiobt.Resume.{lookup}
use aiobt.Python.Bytes.{bytes_eq-true, bytes_eq_sym, Bytes, bytes_eq}
use aiobt.Create.Serialize.{present}
use aiobt.Bencode.Lookup.{normalized, lookup-normalize}
use aiobt.Bencode.Sorted.{
  from_list, normalize, normalize_fields, IsDict, IsDictFields, IsFresh, HasFreshKeys,
}
use aiobt.Bencode.Value.{Value, dict}
use aiobt.Prelude.{
  inr, subst, inl, refl, Bool-cases, ◌∙◌, ap, if◌then◌else◌, ◌≡◌, List, [], ◌∷◌, none, some, Option,
}

-- What stands beside a key.
unfoldable pub value_at : Bytes → List (Bytes × Option Value) → Option Value
unfolding bytes_eq
value_at key [] = none
value_at key ((k, o) ∷ l) = if bytes_eq k key then o else value_at key l

-- The value has no key twice.
abbrev pub IsDictOption : Option Value → Type 0
IsDictOption none = Unit
IsDictOption (some v) = IsDict v

abbrev HasDicts : List (Bytes × Option Value) → Type 0
HasDicts [] = Unit
HasDicts ((k, o) ∷ l) = IsDictOption o × HasDicts l

present-IsFresh :
    (k : Bytes) (l : List (Bytes × Option Value))
    → IsFresh k l
    → IsFresh k (normalize_fields (present l))
unfolding present normalize
present-IsFresh k [] h = tt
present-IsFresh k ((j, none) ∷ l) h = present-IsFresh k l h.1
present-IsFresh k ((j, some v) ∷ l) h = (h.0, present-IsFresh k l h.1)

present-HasFreshKeys :
    (l : List (Bytes × Option Value)) → HasFreshKeys l → HasFreshKeys (normalize_fields (present l))
unfolding present normalize
present-HasFreshKeys [] h = tt
present-HasFreshKeys ((k, none) ∷ l) h = present-HasFreshKeys l h.1
present-HasFreshKeys ((k, some v) ∷ l) h = (present-IsFresh k l h.0, present-HasFreshKeys l h.1)

present-IsDictFields : (l : List (Bytes × Option Value)) → HasDicts l → IsDictFields (present l)
unfolding present IsDict
present-IsDictFields [] h = tt
present-IsDictFields ((k, none) ∷ l) h = present-IsDictFields l h.1
present-IsDictFields ((k, some v) ∷ l) h = (h.0, present-IsDictFields l h.1)

pub present-IsDict :
    (l : List (Bytes × Option Value)) → HasFreshKeys l → HasDicts l → IsDict (dict (present l))
unfolding IsDict
present-IsDict l h d = (present-HasFreshKeys l h, present-IsDictFields l d)

lookup-absent :
    (key : Bytes) (l : List (Bytes × Option Value)) → IsFresh key l → lookup key (present l) ≡ none
unfolding lookup present
lookup-absent key [] h = refl
lookup-absent key ((k, none) ∷ l) h = lookup-absent key l h.1
lookup-absent key ((k, some v) ∷ l) h = rw (bytes_eq_sym k key ∙ h.0) (lookup-absent key l h.1)

lookup-present :
    (key : Bytes) (l : List (Bytes × Option Value))
    → HasFreshKeys l
    → lookup key (present l) ≡ value_at key l
unfolding lookup present value_at
lookup-present key [] h = refl
lookup-present key ((k, some v) ∷ l) h =
    ap (λ o. if bytes_eq k key then some v else o) (lookup-present key l h.1)
lookup-present key ((k, none) ∷ l) h = elim (Bool-cases (bytes_eq k key)) [
  | inl same ↦
      rw same (lookup-absent key l (subst (λ i. IsFresh i l) (bytes_eq-true k key same) h.0))
  | inr other ↦ rw other (lookup-present key l h.1)
]

-- What the decoder finds at a key is what was put there.
pub lookup-read :
    (key : Bytes) (l : List (Bytes × Option Value))
    → HasFreshKeys l
    → lookup key (from_list (sort_keys (normalize_fields (present l))))
      ≡ normalized (value_at key l)
lookup-read key l h =
    lookup-normalize key (present l) (present-HasFreshKeys l h)
    ∙ ap normalized (lookup-present key l h)
