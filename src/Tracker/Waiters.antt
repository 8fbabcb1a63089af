-- ===== src/Tracker/Waiters.antt =====
-- _UDPTrackerProtocol of src/aiobt/tracker.py: the futures by transaction id. A future that
-- `cancel` takes out of the dict has no reader left and is dropped.
use aiobt.Python.Struct.{unpack_u32}
use aiobt.Python.Result.{raised, ok, os_error, Exception}
use aiobt.Prelude.{
  drop, take, length, ltb, [], ◌==◌, true, some, if◌then◌else◌, ◌∷◌, none, false, Option, ℕ, Bool,
  List,
}
use aiobt.Python.Bytes.{Bytes}

pub data Fut : Type 0 where
  waiting : Fut
  result : Bytes → Fut
  broken : Exception → Fut

abbrev pub is_done : Fut → Bool
is_done waiting = false
is_done _ = true

abbrev pub Waiters : Type 0
Waiters = List (ℕ × Fut)

-- self._waiters.get(tid)
unfoldable pub waiter : Waiters → ℕ → Option Fut
waiter [] tid = none
waiter ((t, f) ∷ w) tid = if t == tid then some f else waiter w tid

-- self._waiters[tid] = fut
unfoldable pub put : Waiters → ℕ → Fut → Waiters
put [] tid fut = (tid, fut) ∷ []
put ((t, f) ∷ w) tid fut =
    let rest = put w tid fut in if t == tid then (t, fut) ∷ w else (t, f) ∷ rest

-- self._waiters.pop(tid, None)
unfoldable pub cancel : Waiters → ℕ → Waiters
cancel [] tid = []
cancel ((t, f) ∷ w) tid = let rest = cancel w tid in if t == tid then w else (t, f) ∷ rest

unfoldable pub expect : Waiters → ℕ → Waiters
unfolding put
expect w tid = put w tid waiting

-- fut.set_result(data), unless there is no such future or it is done.
unfoldable pub resolve : Waiters → ℕ → Bytes → Waiters
unfolding waiter put
resolve w tid data' = elim (waiter w tid) [ some waiting ↦ put w tid (result data') | _ ↦ w ]

unfoldable pub datagram_received : Waiters → Bytes → Waiters
unfolding resolve unpack_u32
datagram_received w data' =
    if ltb (length data') 8
    then w
    else elim (unpack_u32 (take 4 (drop 4 data'))) [ ok tid ↦ resolve w tid data' | raised e ↦ w ]

-- fut.set_exception(exc) of every future that is not done.
unfoldable pub error_received : Waiters → Exception → Waiters
error_received [] exc = []
error_received ((t, f) ∷ w) exc = (t, (if is_done f then f else broken exc)) ∷ error_received w exc

unfoldable pub connection_lost : Waiters → Option Exception → Waiters
unfolding error_received
connection_lost w none = error_received w (os_error "UDP transport closed")
connection_lost w (some exc) = error_received w exc

-- What the transport calls while a request waits.
pub data Arrival : Type 0 where
  datagram : Bytes → Arrival
  error : Exception → Arrival
  lost : Option Exception → Arrival

abbrev pub receive : Waiters → Arrival → Waiters
receive w (datagram data') = datagram_received w data'
receive w (error exc) = error_received w exc
receive w (lost exc) = connection_lost w exc

abbrev pub receive_all : Waiters → List Arrival → Waiters
receive_all w [] = w
receive_all w (a ∷ l) = receive_all (receive w a) l
