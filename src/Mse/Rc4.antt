-- ===== src/Mse/Rc4.antt =====
-- The class RC4 of src/aiobt/mse.py: its state, and the bytes that a call returns.
pub mod Laws
use aiobt.Python.Result.{ok, ◌>>◌, zero_division_error, raise_if, Result}
use Prim.Native.Nat.{bit_xor}
use aiobt.Python.Bytes.{Bytes}
use aiobt.Prelude.{replicate, ◌==◌, length, ◌%◌, set, ◌+◌, List, [], ◌∷◌, ℕ, zero, suc}

pub record Rc4 : Type 0 where
  pub s : List ℕ
  pub i : ℕ
  pub j : ℕ

-- list(range(256))
unfoldable pub count_from : ℕ → ℕ → List ℕ
count_from k zero = []
count_from k (suc n) = k ∷ count_from (suc k) n

-- An entry; the indices of the program are below the length.
abbrev pub entry : List ℕ → ℕ → ℕ
entry [] k = 0
entry (x ∷ l) zero = x
entry (x ∷ l) (suc k) = entry l k

-- S[i], S[j] = S[j], S[i]
abbrev pub swap : List ℕ → ℕ → ℕ → List ℕ
swap l i j = set (set l i (entry l j)) j (entry l i)

-- The rounds of the key schedule from i on.
unfoldable pub schedule : Bytes → List ℕ → ℕ → ℕ → ℕ → List ℕ
schedule key s i j zero = s
schedule key s i j (suc rounds) =
    let j' = (j + entry s i + entry key (i % length key)) % 256 in
    schedule key (swap s i j') (suc i) j' rounds

-- One round of `process`: the next state, and the byte of the keystream.
abbrev pub next : Rc4 → Rc4 × ℕ
next r =
    let i' = (r.i + 1) % 256 in
    let j' = (r.j + entry r.s i') % 256 in
    let s' = swap r.s i' j' in
    (record { s = s'; i = i'; j = j' }, entry s' ((entry s' i' + entry s' j') % 256))

unfoldable pub process : Rc4 → Bytes → Rc4 × Bytes
process r [] = (r, [])
process r (x ∷ data') =
    let (r', k) = next r in let (r'', out) = process r' data' in (r'', bit_xor x k ∷ out)

-- RC4(key, discard=discard)
unfoldable pub new_rc4 : Bytes → ℕ → Result Rc4
unfolding count_from schedule process
new_rc4 key discard =
    raise_if (length key == 0) zero_division_error
    >> ok
        (process (record { s = schedule key (count_from 0 256) 0 0 256; i = 0; j = 0 })
          (replicate discard 0)).0
