-- ===== src/Bencode/Sorted.antt =====
-- Dicts with keys in ascending order, and what sorting the keys of a dict does.
use aiobt.Prelude.{
  true, List, [], ◌∷◌, false, Option, none, some, ◌≡◌, refl, subst, Bool-cases, inl, inr,
}
use aiobt.Python.Bytes.{Bytes, bytes_eq, bytes_lt, bytes_lt_total}
use aiobt.Bencode.Value.{
  Value, Items, Fields, int, bytes, list, dict, no_items, item, no_fields, field,
}
use aiobt.Bencode.Decode.{out_of_order}
use aiobt.Bencode.Encode.{insert_key, sort_keys}

abbrev pub from_list : List (Bytes × Value) → Fields
from_list [] = no_fields
from_list ((k, v) ∷ l) = field k v (from_list l)

-- A value with the keys of each dict in the order that the encoder writes.
unfoldable mutual
  pub normalize : Value → Value
  normalize (int z) = int z
  normalize (bytes s) = bytes s
  normalize (list xs) = list (normalize_items xs)
  normalize (dict fs) = dict (from_list (sort_keys (normalize_fields fs)))

  pub normalize_items : Items → Items
  normalize_items no_items = no_items
  normalize_items (item v xs) = item (normalize v) (normalize_items xs)

  pub normalize_fields : Fields → List (Bytes × Value)
  normalize_fields no_fields = []
  normalize_fields (field k v fs) = (k, normalize v) ∷ normalize_fields fs

-- The key differs from each key of the list.
abbrev pub IsFresh {ℓ} : {A : Type ℓ} → Bytes → List (Bytes × A) → Type 0
IsFresh k [] = Unit
IsFresh k ((j, a) ∷ l) = (bytes_eq k j ≡ false) × IsFresh k l

abbrev pub HasFreshKeys {ℓ} : {A : Type ℓ} → List (Bytes × A) → Type 0
HasFreshKeys [] = Unit
HasFreshKeys ((k, a) ∷ l) = IsFresh k l × HasFreshKeys l

-- No dict of the value has a key twice, as Python's dicts guarantee.
unfoldable mutual
  pub IsDict : Value → Type 0
  IsDict (int z) = Unit
  IsDict (bytes s) = Unit
  IsDict (list xs) = IsDictItems xs
  IsDict (dict fs) = HasFreshKeys (normalize_fields fs) × IsDictFields fs

  pub IsDictItems : Items → Type 0
  IsDictItems no_items = Unit
  IsDictItems (item v xs) = IsDict v × IsDictItems xs

  pub IsDictFields : Fields → Type 0
  IsDictFields no_fields = Unit
  IsDictFields (field k v fs) = IsDict v × IsDictFields fs

-- The keys ascend strictly, from above the first argument.
abbrev pub IsAscending {ℓ} : {A : Type ℓ} → Option Bytes → List (Bytes × A) → Type 0
IsAscending prev [] = Unit
IsAscending prev ((k, a) ∷ l) = (out_of_order prev k ≡ false) × IsAscending (some k) l

-- The key is above the one before it, if there is one.
abbrev pub IsAbove : Option Bytes → Bytes → Type 0
IsAbove none key = Unit
IsAbove (some prev_key) key = bytes_lt prev_key key ≡ true

-- Every dict of the value has its keys in strictly ascending order.
unfoldable mutual
  pub IsSorted : Value → Type 0
  IsSorted (int z) = Unit
  IsSorted (bytes s) = Unit
  IsSorted (list xs) = IsSortedItems xs
  IsSorted (dict fs) = IsSortedFields none fs

  pub IsSortedItems : Items → Type 0
  IsSortedItems no_items = Unit
  IsSortedItems (item v xs) = IsSorted v × IsSortedItems xs

  pub IsSortedFields : Option Bytes → Fields → Type 0
  IsSortedFields prev no_fields = Unit
  IsSortedFields prev (field k v fs) = IsAbove prev k × IsSorted v × IsSortedFields (some k) fs

-- Two lists have the same keys in the same places, and `R` holds of what stands beside each.
abbrev pub Matches {ℓ κ} :
    {A : Type ℓ} {B : Type κ} → (A → B → Type 0) → List (Bytes × A) → List (Bytes × B) → Type 0
Matches R [] [] = Unit
Matches R ((k, a) ∷ l) ((j, b) ∷ m) = (k ≡ j) × R a b × Matches R l m
Matches R _ _ = ⊥

module _ {ℓ} {A : Type ℓ} where
  insert_key-IsAscending :
      (prev : Option Bytes) (k : Bytes) (a : A) (l : List (Bytes × A))
      → out_of_order prev k ≡ false
      → IsFresh k l
      → IsAscending prev l
      → IsAscending prev (insert_key k a l)
  unfolding insert_key
  insert_key-IsAscending prev k a [] p h s = (p, tt)
  insert_key-IsAscending prev k a ((j, b) ∷ l) p h s = elim (Bool-cases (bytes_lt j k)) [
    | inl less ↦ rw less (s.0, insert_key-IsAscending (some j) k a l (rw less) h.1 s.1)
    | inr more ↦ rw more (p, (rw (bytes_lt_total j k more h.0), s.1))
  ]

  insert_key-IsFresh :
      (j k : Bytes) (a : A) (l : List (Bytes × A))
      → bytes_eq j k ≡ false
      → IsFresh j l
      → IsFresh j (insert_key k a l)
  unfolding insert_key
  insert_key-IsFresh j k a [] e h = (e, tt)
  insert_key-IsFresh j k a ((i, b) ∷ l) e h = elim (Bool-cases (bytes_lt i k)) [
    | inl less ↦ rw less (h.0, insert_key-IsFresh j k a l e h.1)
    | inr more ↦ rw more (e, h)
  ]

  pub sort_keys-IsFresh : (j : Bytes) (l : List (Bytes × A)) → IsFresh j l → IsFresh j (sort_keys l)
  unfolding sort_keys
  sort_keys-IsFresh j [] h = tt
  sort_keys-IsFresh j ((k, a) ∷ l) h =
      insert_key-IsFresh j k a (sort_keys l) h.0 (sort_keys-IsFresh j l h.1)

  pub sort_keys-IsAscending :
      (l : List (Bytes × A)) → HasFreshKeys l → IsAscending none (sort_keys l)
  unfolding sort_keys
  sort_keys-IsAscending [] h = tt
  sort_keys-IsAscending ((k, a) ∷ l) h =
      insert_key-IsAscending none k a (sort_keys l) refl (sort_keys-IsFresh k l h.0)
        (sort_keys-IsAscending l h.1)

module _ {ℓ κ} {A : Type ℓ} {B : Type κ} (R : A → B → Type 0) where
  insert_key-Matches :
      (k : Bytes) (a : A) (b : B) (l : List (Bytes × A)) (m : List (Bytes × B))
      → R a b
      → Matches R l m
      → Matches R (insert_key k a l) (insert_key k b m)
  unfolding insert_key
  insert_key-Matches k a b [] [] r h = (refl, r, tt)
  insert_key-Matches k a b ((i, x) ∷ l) ((j, y) ∷ m) r h =
      subst (λ j'. Matches R (insert_key k a ((i, x) ∷ l)) (insert_key k b ((j', y) ∷ m))) h.0
        (elim (Bool-cases (bytes_lt i k)) [
          | inl less ↦ rw less (refl, h.1, insert_key-Matches k a b l m r h.2)
          | inr more ↦ rw more (refl, r, (refl, h.1, h.2))
        ])
  insert_key-Matches k a b [] (y ∷ m) r h = absurd h
  insert_key-Matches k a b (x ∷ l) [] r h = absurd h

  pub sort_keys-Matches :
      (l : List (Bytes × A)) (m : List (Bytes × B))
      → Matches R l m
      → Matches R (sort_keys l) (sort_keys m)
  unfolding sort_keys
  sort_keys-Matches [] [] h = tt
  sort_keys-Matches ((k, a) ∷ l) ((j, b) ∷ m) h =
      subst (λ j'. Matches R (insert_key k a (sort_keys l)) (insert_key j' b (sort_keys m))) h.0
        (insert_key-Matches k a b (sort_keys l) (sort_keys m) h.1 (sort_keys-Matches l m h.2))
  sort_keys-Matches [] (y ∷ m) h = absurd h
  sort_keys-Matches (x ∷ l) [] h = absurd h
