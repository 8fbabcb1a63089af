-- ===== src/Tracker/Delivery.antt =====
-- Which datagram a request of src/aiobt/tracker.py is answered by.
use aiobt.Python.Struct.{unpack_u32}
use aiobt.Python.Result.{Result-cases, ok, Exception}
use aiobt.Prelude.{
  ◌++◌, All, none, List, ap, ◌∙◌, refl, drop, ◌⊎◌, inr, take, ◌==◌, inl, if◌then◌else◌, some, ◌<◌,
  ◌≤◌, ◌≡◌, length, ◌≢◌, ℕ,
}
use aiobt.Python.Bytes.{Bytes}
use aiobt.Tracker.Waiters.{
  receive_all, connection_lost, Fut, waiting, result, broken, Waiters, Arrival, datagram, error,
  lost, waiter, put, expect, resolve, datagram_received, error_received, receive,
}
use aiobt.Prelude.{◌∷◌, [], some, inl, inr, arith, ℕ}
use aiobt.Python.Struct.{unpack_u32}

-- A datagram of eight bytes at least, with the transaction id.
abbrev pub IsFor : ℕ → Bytes → Type 0
IsFor tid b = (8 ≤ length b) × (unpack_u32 (take 4 (drop 4 b)) ≡ ok tid)

-- A datagram that is too short, or has another transaction id.
abbrev pub IsStray : ℕ → Arrival → Type 0
IsStray tid (datagram b) = (length b < 8) ⊎ ((t : ℕ) × IsFor t b × (t ≢ tid))
IsStray tid _ = ⊥

waiter-put :
    (w : Waiters) (t u : ℕ) (f : Fut)
    → waiter (put w t f) u ≡ (if t == u then some f else waiter w u)
unfolding waiter put
waiter-put [] t u f = refl
waiter-put ((v, g) ∷ w) t u f = ground (arith, waiter-put w t u f)

pub waiter-expect : (w : Waiters) (tid : ℕ) → waiter (expect w tid) tid ≡ some waiting
unfolding expect
waiter-expect w tid = ground (arith, waiter-put w tid tid waiting)

waiter-resolve_ne :
    (w : Waiters) (t tid : ℕ) (b : Bytes) → t ≢ tid → waiter (resolve w t b) tid ≡ waiter w tid
unfolding resolve
waiter-resolve_ne w t tid b h = ground (arith, waiter-put w t tid (result b))

-- A datagram for the future that waits is its result.
waiter-answer :
    (w : Waiters) (tid : ℕ) (b : Bytes)
    → waiter w tid ≡ some waiting
    → IsFor tid b
    → waiter (datagram_received w b) tid ≡ some (result b)
unfolding datagram_received resolve
waiter-answer w tid b e (n, h) = ground (arith, waiter-put w tid tid (result b))

waiter-stray :
    (w : Waiters) (tid : ℕ) (a : Arrival) → IsStray tid a → waiter (receive w a) tid ≡ waiter w tid
unfolding datagram_received
waiter-stray w tid (datagram b) (inl h) = ground arith
waiter-stray w tid (datagram b) (inr (t, (n, e), h)) = ground (arith, waiter-resolve_ne w t tid b h)
waiter-stray w tid (error e) h = absurd h
waiter-stray w tid (lost e) h = absurd h

waiter-error :
    (w : Waiters) (tid : ℕ) (b : Bytes) (exc : Exception)
    → waiter w tid ≡ some (result b)
    → waiter (error_received w exc) tid ≡ some (result b)
unfolding waiter error_received
waiter-error [] tid b exc h = cc
waiter-error ((t, waiting) ∷ w) tid b exc h = ground (arith, waiter-error w tid b exc)
waiter-error ((t, result a) ∷ w) tid b exc h = ground (arith, waiter-error w tid b exc)
waiter-error ((t, broken a) ∷ w) tid b exc h = ground (arith, waiter-error w tid b exc)

waiter-resolve_settled :
    (w : Waiters) (t tid : ℕ) (b x : Bytes)
    → waiter w tid ≡ some (result b)
    → waiter (resolve w t x) tid ≡ some (result b)
unfolding resolve
waiter-resolve_settled w t tid b x h = ground (arith, waiter-put w t tid (result x), ap (waiter w))

waiter-settled :
    (w : Waiters) (tid : ℕ) (b : Bytes) (a : Arrival)
    → waiter w tid ≡ some (result b)
    → waiter (receive w a) tid ≡ some (result b)
unfolding datagram_received connection_lost resolve
waiter-settled w tid b (datagram x) h = elim (Result-cases (unpack_u32 (take 4 (drop 4 x)))) [
  | inl (e, f) ↦ ground arith
  | inr (t, f) ↦ ground (arith, waiter-resolve_settled w t tid b x h)
]
waiter-settled w tid b (error e) h = waiter-error w tid b e h
waiter-settled w tid b (lost none) h = waiter-error w tid b _ h
waiter-settled w tid b (lost (some e)) h = waiter-error w tid b e h

pub waiter-settled_list :
    (w : Waiters) (tid : ℕ) (b : Bytes) (l : List Arrival)
    → waiter w tid ≡ some (result b)
    → waiter (receive_all w l) tid ≡ some (result b)
waiter-settled_list w tid b [] h = h
waiter-settled_list w tid b (a ∷ l) h =
    waiter-settled_list (receive w a) tid b l (waiter-settled w tid b a h)

pub waiter-stray_list :
    (w : Waiters) (tid : ℕ) (l : List Arrival)
    → All (IsStray tid) l
    → waiter (receive_all w l) tid ≡ waiter w tid
waiter-stray_list w tid [] h = refl
waiter-stray_list w tid (a ∷ l) h =
    waiter-stray_list (receive w a) tid l h.1 ∙ waiter-stray w tid a h.0

-- The first datagram for a waiting future is its result, whatever comes before it for others and
-- after it.
pub first_answer :
    (w : Waiters) (tid : ℕ) (before after : List Arrival) (b : Bytes)
    → waiter w tid ≡ some waiting
    → All (IsStray tid) before
    → IsFor tid b
    → waiter (receive_all w (before ++ (datagram b ∷ after))) tid ≡ some (result b)
first_answer w tid [] after b e s f =
    waiter-settled_list (datagram_received w b) tid b after (waiter-answer w tid b e f)
first_answer w tid (a ∷ before) after b e s f =
    first_answer (receive w a) tid before after b (waiter-stray w tid a s.0 ∙ e) s.1 f
