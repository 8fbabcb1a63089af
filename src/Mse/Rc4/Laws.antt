-- ===== src/Mse/Rc4/Laws.antt =====
-- What RC4 of src/aiobt/mse.py does to data, in whatever parts it comes.
use aiobt.Python.Result.{ok}
use aiobt.Python.Bytes.{Bytes}
use aiobt.Python.Struct.{AreBytes}
use aiobt.Python.Xor.{bit_xor_twice}
use aiobt.Mse.Rc4.{Rc4, count_from, entry, swap, schedule, next, process, new_rc4}
use aiobt.Prelude.{
  replicate, false, ◌==◌, refl, ◌≤◌, length-set, ap, ◌∙◌, ◌≡◌, ◌+◌, ◌++◌, List, [], ◌∷◌, ℕ, zero,
  suc, arith, set, length, ◌<◌,
}

-- 256 bytes, and two indices into them.
abbrev pub IsRc4 : Rc4 → Type 0
IsRc4 r = (length r.s ≡ 256) × AreBytes r.s × (r.i < 256) × (r.j < 256)

entry-lt : (l : List ℕ) (k : ℕ) → AreBytes l → entry l k < 256
entry-lt [] k h = omega arith
entry-lt (x ∷ l) zero h = h.0
entry-lt (x ∷ l) (suc k) h = entry-lt l k h.1

set-AreBytes : (l : List ℕ) (k v : ℕ) → AreBytes l → v < 256 → AreBytes (set l k v)
set-AreBytes [] k v h b = tt
set-AreBytes (x ∷ l) zero v h b = (b, h.1)
set-AreBytes (x ∷ l) (suc k) v h b = (h.0, set-AreBytes l k v h.1 b)

swap-AreBytes : (l : List ℕ) (i j : ℕ) → AreBytes l → AreBytes (swap l i j)
swap-AreBytes l i j h =
    set-AreBytes (set l i (entry l j)) j _ (set-AreBytes l i _ h (entry-lt l j h)) (entry-lt l i h)

length-swap : (l : List ℕ) (i j : ℕ) → length (swap l i j) ≡ length l
length-swap l i j = length-set (set l i (entry l j)) j _ ∙ length-set l i _

next-IsRc4 : (r : Rc4) → IsRc4 r → IsRc4 (next r).0
next-IsRc4 r (n, h, i, j) =
    (length-swap r.s _ _ ∙ n, swap-AreBytes r.s _ _ h, omega arith, omega arith)

next-lt : (r : Rc4) → IsRc4 r → (next r).1 < 256
next-lt r (n, h, i, j) = entry-lt _ _ (swap-AreBytes r.s _ _ h)

pub process-IsRc4 : (r : Rc4) (data' : Bytes) → IsRc4 r → IsRc4 (process r data').0
unfolding process
process-IsRc4 r [] h = h
process-IsRc4 r (x ∷ data') h = process-IsRc4 (next r).0 data' (next-IsRc4 r h)

-- Processing what was processed from the same state gives the data back, and the same next state.
pub process_twice :
    (r : Rc4) (data' : Bytes)
    → IsRc4 r
    → AreBytes data'
    → process r (process r data').1 ≡ ((process r data').0, data')
unfolding process
process_twice r [] h b = refl
process_twice r (x ∷ data') h b =
    let rest = process_twice (next r).0 data' (next-IsRc4 r h) b.1 in
    rw (rest, bit_xor_twice x (next r).1 b.0 (next-lt r h))

-- Data in two parts is processed as a whole.
pub process-append :
    (r : Rc4) (a b : Bytes)
    → process r (a ++ b)
      ≡ ((process (process r a).0 b).0, (process r a).1 ++ (process (process r a).0 b).1)
unfolding process
process-append r [] b = refl
process-append r (x ∷ a) b = rw (process-append (next r).0 a b)

pub length-process : (r : Rc4) (a : Bytes) → length (process r a).1 ≡ length a
unfolding process
length-process r [] = refl
length-process r (x ∷ a) = ap suc (length-process (next r).0 a)

count_from-AreBytes : (k n : ℕ) → k + n ≤ 256 → AreBytes (count_from k n)
unfolding count_from
count_from-AreBytes k zero h = tt
count_from-AreBytes k (suc n) h = (omega arith, count_from-AreBytes (suc k) n (omega arith))

length-count_from : (k n : ℕ) → length (count_from k n) ≡ n
unfolding count_from
length-count_from k zero = refl
length-count_from k (suc n) = ap suc (length-count_from (suc k) n)

schedule-AreBytes :
    (key : Bytes) (i j rounds : ℕ) (s : List ℕ)
    → AreBytes s
    → AreBytes (schedule key s i j rounds) × (length (schedule key s i j rounds) ≡ length s)
unfolding schedule
schedule-AreBytes key i j zero s h = (h, refl)
schedule-AreBytes key i j (suc rounds) s h =
    let (b, n) = schedule-AreBytes key (suc i) _ rounds _ (swap-AreBytes s i _ h) in
    (b, n ∙ length-swap s i _)

positive-test : (n : ℕ) → 0 < n → (n == 0) ≡ false
positive-test n h = ground arith

-- What the key schedule makes.
abbrev pub scheduled : Bytes → Rc4
scheduled key = record { s = schedule key (count_from 0 256) 0 0 256; i = 0; j = 0 }

pub scheduled-IsRc4 : (key : Bytes) → IsRc4 (scheduled key)
scheduled-IsRc4 key =
    let (b, n) =
      schedule-AreBytes key 0 0 256 (count_from 0 256) (count_from-AreBytes 0 256 (omega arith)) in
    (n ∙ length-count_from 0 256, b, omega arith, omega arith)

-- A cipher for a key that is not empty starts with 256 bytes and two indices into them.
pub new_rc4-IsRc4 :
    (key : Bytes) (discard : ℕ)
    → 0 < length key
    → (r : Rc4) × (new_rc4 key discard ≡ ok r) × IsRc4 r
unfolding new_rc4
new_rc4-IsRc4 key discard h =
    let ne : (length key == 0) ≡ false = positive-test (length key) h in
    (
      (process (scheduled key) (replicate discard 0)).0,
      rw ne refl,
      process-IsRc4 (scheduled key) (replicate discard 0) (scheduled-IsRc4 key),
    )

-- The cipher is scheduled with the key, and the first bytes of its stream are discarded.
pub new_rc4-scheduled :
    (key : Bytes) (discard : ℕ)
    → 0 < length key
    → new_rc4 key discard ≡ ok (process (scheduled key) (replicate discard 0)).0
unfolding new_rc4
new_rc4-scheduled key discard h = rw (positive-test (length key) h) refl
