-- ===== src/Mse/Negotiation.antt =====
-- The choice of the crypto method in _mse_initiate_inner and _mse_receive_inner of src/aiobt/mse.py.
use Prim.Native.Nat.{bit_and, bit_or}
use aiobt.Python.Result.{◌>>=◌, Result, ok, raised, value_error}
use aiobt.Prelude.{
  ◌∙◌, refl, ap, arith, Bool-cases, String, ◌||◌, not, ◌==◌, ◌⊎◌, false, true, if◌then◌else◌, Bool,
  ◌≡◌, ℕ, inl, inr,
}

pub data EncryptionPolicy : Type 0 where
  disabled preferred forced : EncryptionPolicy

abbrev pub crypto_plaintext : ℕ
crypto_plaintext = 1

abbrev pub crypto_rc4 : ℕ
crypto_rc4 = 2

-- What the initiator offers.
unfoldable pub crypto_provide : EncryptionPolicy → ℕ
crypto_provide forced = crypto_rc4
crypto_provide disabled = crypto_plaintext
crypto_provide preferred = bit_or crypto_plaintext crypto_rc4

abbrev pub offers : ℕ → ℕ → Bool
offers provided method = not (bit_and provided method == 0)

-- What the receiver selects from an offer.
unfoldable pub crypto_select : EncryptionPolicy → ℕ → Result ℕ
crypto_select forced provided =
    if offers provided crypto_rc4
    then ok crypto_rc4
    else raised (value_error "peer only offers plaintext but encryption is forced")
crypto_select disabled provided =
    if offers provided crypto_plaintext
    then ok crypto_plaintext
    else raised (value_error "peer only offers RC4 but encryption is disabled")
crypto_select preferred provided =
    if offers provided crypto_rc4
    then ok crypto_rc4
    else (if offers provided crypto_plaintext
        then ok crypto_plaintext
        else raised (value_error "no acceptable crypto method"))

abbrev pub accept_rc4 : EncryptionPolicy → Result Bool
accept_rc4 disabled = raised (value_error "peer selected RC4 but encryption is disabled")
accept_rc4 _ = ok true

abbrev pub accept_plaintext : EncryptionPolicy → Result Bool
accept_plaintext forced = raised (value_error "peer selected plaintext but encryption is forced")
accept_plaintext _ = ok false

-- What the initiator makes of the selection: whether the stream is encrypted.
unfoldable pub accept_selected : EncryptionPolicy → ℕ → Result Bool
accept_selected policy selected =
    if selected == crypto_rc4
    then accept_rc4 policy
    else (if selected == crypto_plaintext
        then accept_plaintext policy
        else raised (value_error "unknown crypto_select"))

-- Methods that a policy admits.
abbrev pub Admits : EncryptionPolicy → ℕ → Type 0
Admits disabled method = method ≡ crypto_plaintext
Admits preferred method = (method ≡ crypto_plaintext) ⊎ (method ≡ crypto_rc4)
Admits forced method = method ≡ crypto_rc4

-- Whatever is offered, the receiver selects a method that it admits and that is offered, or raises
-- ValueError where there is none.
pub crypto_select_lem :
    (policy : EncryptionPolicy) (provided : ℕ)
    → ((method : ℕ) × (crypto_select policy provided ≡ ok method)
        × Admits policy method
        × (offers provided method ≡ true))
      ⊎ (((m : String) × (crypto_select policy provided ≡ raised (value_error m)))
          × ((method : ℕ) → Admits policy method → offers provided method ≡ false))
unfolding crypto_select
crypto_select_lem disabled provided = elim (Bool-cases (offers provided crypto_plaintext)) [
  | inl e ↦ inl (crypto_plaintext, rw e refl, refl, e)
  | inr e ↦ inr (
    ("peer only offers RC4 but encryption is disabled", rw e refl),
    λ method h. ap (offers provided) h ∙ e,
  )
]
crypto_select_lem forced provided = elim (Bool-cases (offers provided crypto_rc4)) [
  | inl e ↦ inl (crypto_rc4, rw e refl, refl, e)
  | inr e ↦ inr (
    ("peer only offers plaintext but encryption is forced", rw e refl),
    λ method h. ap (offers provided) h ∙ e,
  )
]
crypto_select_lem preferred provided = elim (Bool-cases (offers provided crypto_rc4)) [
  | inl e ↦ inl (crypto_rc4, rw e refl, inr refl, e)
  | inr e ↦ elim (Bool-cases (offers provided crypto_plaintext)) [
    | inl f ↦ inl (crypto_plaintext, rw e (rw f refl), inl refl, f)
    | inr f ↦ inr (
      ("no acceptable crypto method", rw e (rw f refl)),
      λ method h. elim h [
        | inl p ↦ ap (offers provided) p ∙ f
        | inr r ↦ ap (offers provided) r ∙ e
      ],
    )
  ]
]

abbrev pub is_disabled : EncryptionPolicy → Bool
is_disabled disabled = true
is_disabled _ = false

-- Two peers whose policies have a method in common.
abbrev pub AreCompatible : EncryptionPolicy → EncryptionPolicy → Type 0
AreCompatible a b = (method : ℕ) × Admits a method × Admits b method

-- Two peers whose policies have a method in common agree, on RC4 unless one of them disables it;
-- two others do not: the receiver raises ValueError.
pub negotiation_lem :
    (a b : EncryptionPolicy)
    → (AreCompatible a b
        → (crypto_select b (crypto_provide a) >>= accept_selected a)
          ≡ ok (not (is_disabled a || is_disabled b)))
      × ((AreCompatible a b → ⊥)
          → (m : String) × (crypto_select b (crypto_provide a) ≡ raised (value_error m)))
unfolding crypto_select crypto_provide accept_selected
negotiation_lem disabled disabled = (λ h. refl, λ h. absurd (h (crypto_plaintext, refl, refl)))
negotiation_lem disabled preferred = (λ h. refl, λ h. absurd (h (crypto_plaintext, refl, inl refl)))
negotiation_lem disabled forced = (λ (m, p, r). absurd (omega (arith, p, r)), λ h. (_, refl))
negotiation_lem preferred disabled = (λ h. refl, λ h. absurd (h (crypto_plaintext, inl refl, refl)))
negotiation_lem preferred preferred = (λ h. refl, λ h. absurd (h (crypto_rc4, inr refl, inr refl)))
negotiation_lem preferred forced = (λ h. refl, λ h. absurd (h (crypto_rc4, inr refl, refl)))
negotiation_lem forced disabled = (λ (m, p, r). absurd (omega (arith, p, r)), λ h. (_, refl))
negotiation_lem forced preferred = (λ h. refl, λ h. absurd (h (crypto_rc4, refl, inr refl)))
negotiation_lem forced forced = (λ h. refl, λ h. absurd (h (crypto_rc4, refl, refl)))
