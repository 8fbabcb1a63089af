-- ===== src/Python/Result.antt =====
-- The outcome of a call: a value, or a raised exception.
use aiobt.Prelude.{◌∙◌, ap, inr, inl, ◌⊎◌, String, Bool, true, false, ◌≡◌, refl, subst}

-- A message is kept without the values that the program formats into it. `out_of_fuel` has no
-- counterpart in the program: it marks a run of the model that stopped too early.
pub data Exception : Type 0 where
  decode_error value_error struct_error os_error tracker_error connection_error : String → Exception
  unicode_error runtime_error timeout_error : Exception
  index_error zero_division_error incomplete_read_error out_of_fuel : Exception

pub data Result {ℓ} (A : Type ℓ) : Type ℓ where
  raised : Exception → Result A
  ok : A → Result A

module _ {ℓ κ} {A : Type ℓ} {B : Type κ} where
  infixl 5 ◌>>=◌
  -- A call, and the rest of the function on the value that it returns.
  abbrev pub ◌>>=◌ : Result A → (A → Result B) → Result B
  raised e >>= next = raised e
  ok a >>= next = next a

  -- Where call and rest return a value, so does the call alone.
  pub >>=-eq-ok :
      (call : Result A) (next : A → Result B) {value : B}
      → (call >>= next) ≡ ok value
      → (a : A) × (call ≡ ok a) × (next a ≡ ok value)
  >>=-eq-ok (raised e) next returned = cc
  >>=-eq-ok (ok a) next returned = (a, refl, returned)

  -- A call that returns is followed by the rest.
  pub >>=-ok :
      (call : Result A) (next : A → Result B) {a : A} {result : Result B}
      → call ≡ ok a
      → next a ≡ result
      → (call >>= next) ≡ result
  >>=-ok call next e h = ap (λ c. c >>= next) e ∙ h

-- `if test: raise e`
abbrev pub raise_if : Bool → Exception → Result (Unit {0})
raise_if false e = ok tt
raise_if true e = raised e

infixl 5 ◌>>◌
abbrev pub ◌>>◌ {ℓ} : {A : Type ℓ} → Result (Unit {0}) → Result A → Result A
test >> rest = test >>= λ _. rest

-- A value that two successful results share.
pub subst_ok {ℓ κ} : {A : Type ℓ} (P : A → Type κ) {a b : A} → ok a ≡ ok b → P a → P b
subst_ok P e h = subst P (cc) h

pub ok-injective {ℓ} : {A : Type ℓ} {a b : A} → ok a ≡ ok b → a ≡ b
ok-injective e = cc

-- A run that passes a test goes on as if it were not there.
pub raise_if-eq-ok {ℓ} :
    {A : Type ℓ} (b : Bool) (e : Exception) (m : Result A) {a : A}
    → (raise_if b e >> m) ≡ ok a
    → (b ≡ false) × (m ≡ ok a)
raise_if-eq-ok true e m h = cc
raise_if-eq-ok false e m h = (refl, h)

pub Result-cases {ℓ} :
    {A : Type ℓ} (r : Result A) → ((e : Exception) × (r ≡ raised e)) ⊎ ((a : A) × (r ≡ ok a))
Result-cases (raised e) = inl (e, refl)
Result-cases (ok a) = inr (a, refl)
