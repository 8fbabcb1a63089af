-- ===== src/Python/Settled.antt =====
-- Postconditions of a run that raises DecodeError and nothing else.
use aiobt.Prelude.{inl, inr, ◌⊎◌, String, if◌then◌else◌, ◌≡◌, refl, Bool, true, false}
use aiobt.Python.Result.{
  os_error, tracker_error, connection_error, unicode_error, runtime_error, timeout_error,
  value_error, struct_error, index_error, zero_division_error, incomplete_read_error, Exception,
  Result, ok, raised, out_of_fuel, ◌>>=◌, ◌>>◌, raise_if, decode_error,
}

abbrev pub IsDecodeError : Exception → Type 0
IsDecodeError (decode_error m) = Unit
IsDecodeError _ = ⊥

-- `P` holds of the value, or the run raised DecodeError.
abbrev pub Settled {ℓ} : {A : Type ℓ} → (A → Type 0) → Result A → Type 0
Settled P (ok a) = P a
Settled P (raised e) = IsDecodeError e

module _ {ℓ κ} {A : Type ℓ} {B : Type κ} where
  pub Settled-bind :
      (P : A → Type 0) (Q : B → Type 0) (m : Result A) (f : A → Result B)
      → Settled P m
      → ((a : A) → P a → Settled Q (f a))
      → Settled Q (m >>= f)
  Settled-bind P Q (ok a) f h k = k a h
  Settled-bind P Q (raised e) f h k = h

module _ {ℓ} {B : Type ℓ} where
  pub Settled-raise_if :
      (Q : B → Type 0) (b : Bool) (e : Exception) (m : Result B)
      → IsDecodeError e
      → (b ≡ false → Settled Q m)
      → Settled Q (raise_if b e >> m)
  Settled-raise_if Q true e m h k = h
  Settled-raise_if Q false e m h k = k refl

  pub Settled-ok : (P : B → Type 0) (m : Result B) {b : B} → Settled P m → m ≡ ok b → P b
  Settled-ok P m h e = rw e at h

  -- The two ways in which such a run ends.
  pub Settled-cases :
      (P : B → Type 0) (m : Result B)
      → Settled P m
      → ((b : B) × (m ≡ ok b)) ⊎ ((s : String) × (m ≡ raised (decode_error s)))
  Settled-cases P (ok b) h = inl (b, refl)
  Settled-cases P (raised (decode_error s)) h = inr (s, refl)
  Settled-cases P (raised (value_error s)) h = absurd h
  Settled-cases P (raised (struct_error s)) h = absurd h
  Settled-cases P (raised (os_error s)) h = absurd h
  Settled-cases P (raised (tracker_error s)) h = absurd h
  Settled-cases P (raised (connection_error s)) h = absurd h
  Settled-cases P (raised unicode_error) h = absurd h
  Settled-cases P (raised runtime_error) h = absurd h
  Settled-cases P (raised timeout_error) h = absurd h
  Settled-cases P (raised index_error) h = absurd h
  Settled-cases P (raised zero_division_error) h = absurd h
  Settled-cases P (raised incomplete_read_error) h = absurd h
  Settled-cases P (raised out_of_fuel) h = absurd h

module _ {ℓ} {B : Type ℓ} where
  pub Settled-weaken :
      (P Q : B → Type 0) (m : Result B) → Settled P m → ((b : B) → P b → Q b) → Settled Q m
  Settled-weaken P Q (ok b) h k = k b h
  Settled-weaken P Q (raised e) h k = h

  pub Settled-if :
      (Q : B → Type 0) (b : Bool) (x y : Result B)
      → (b ≡ true → Settled Q x)
      → (b ≡ false → Settled Q y)
      → Settled Q (if b then x else y)
  Settled-if Q true x y h k = h refl
  Settled-if Q false x y h k = k refl
