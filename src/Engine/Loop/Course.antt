-- ===== src/Engine/Loop/Course.antt =====
-- The whole course of run_peer of src/aiobt/engine.py.
use aiobt.Engine.Loop.Messages.{run_peer-Relies, Relies}
use aiobt.Engine.Endgame.{EndgameState}
use aiobt.Python.Result.{Exception}
use aiobt.Storage.Backend.{LinearStorage}
use aiobt.Engine.Loop.Stored.{IsWithin, IsGenuine}
use aiobt.Engine.Loop.Safe.{IsStored}
use aiobt.Engine.Loop.{run_peer, new_loop}
use aiobt.Engine.Peer.{Turn, message, others}
use aiobt.Piece.{PieceTracker, PieceSpec}
use aiobt.Protocol.{piece}
use aiobt.Choking.{PeerRates, Addr}
use aiobt.Python.Bytes.{Bytes}
use aiobt.Prelude.{inr, ◌⊎◌, inl, refl, ◌≡◌, Option, All, Bool, List, ℕ, [], ◌∷◌}

-- The offset in its piece and the bytes of a block that the peer sends in one of the turns.
abbrev pub IsSent : {S : Type 0} → List (Turn S) → ℕ × Bytes → Type 0
IsSent [] x = ⊥
IsSent (message (piece i begin block) ∷ l) x = ((begin, block) ≡ x) ⊎ IsSent l x
IsSent (_ ∷ l) x = IsSent l x

module _ {S : Type 0} (store : LinearStorage S) (original : Bytes) (specs : List PieceSpec) where
  open store use {backend}

  -- After a turn of the other tasks the storage is still right.
  abbrev Others : Turn S → Type 0
  Others (message m) = Unit
  Others (others t st e r) = IsStored store original specs t st

  Relies-of_Others :
      (Sent : ℕ × Bytes → Type 0) (sha1 : Bytes → Bytes) (addr : Addr) (connected : Addr → Bool)
      (has_manager : Bool) (d : IsWithin original specs)
      (genuine : IsGenuine sha1 original specs Sent) (l : List (Turn S))
      → ((x : ℕ × Bytes) → IsSent l x → Sent x)
      → All Others l
      → All (Relies store original specs Sent sha1 addr connected has_manager d genuine) l
  Relies-of_Others Sent sha1 addr connected has_manager d genuine [] f h = tt
  Relies-of_Others Sent sha1 addr connected has_manager d genuine (others t st e r ∷ l) f h =
      (h.0, Relies-of_Others Sent sha1 addr connected has_manager d genuine l f h.1)
  Relies-of_Others Sent sha1 addr connected has_manager d genuine
        (message (piece i begin block) ∷ l) f h =
      (
        f (begin, block) (inl refl),
        Relies-of_Others Sent sha1 addr connected has_manager d genuine l (λ x m. f x (inr m)) h.1,
      )
  Relies-of_Others Sent sha1 addr connected has_manager d genuine (message _ ∷ l) f h =
      (tt, Relies-of_Others Sent sha1 addr connected has_manager d genuine l f h.1)

  -- Whatever a peer sends, in whatever order and between whatever changes by other tasks that keep
  -- it, and however the exchange ends: the storage holds each piece that is had as it is in the
  -- data. The pieces lie within the data, and of what can be put together from the blocks of
  -- these turns only the data of a piece has its digest: the peer finds no second preimage. The
  -- backend reads and writes the linear piece space.
  pub run_peer-IsStored :
      (sha1 : Bytes → Bytes) (addr : Addr) (connected : Addr → Bool) (has_manager : Bool)
      (t : PieceTracker) (st : S) (e : Option EndgameState) (r : Option PeerRates)
      (turns : List (Turn S)) (last : Exception)
      → IsWithin original specs
      → IsGenuine sha1 original specs (IsSent turns)
      → IsStored store original specs t st
      → All Others turns
      → let end =
          (run_peer backend sha1 addr connected has_manager
            (new_loop backend sha1 addr connected has_manager t st e r)
            turns
            last).0 in
        IsStored store original specs end.tracker end.storage
  run_peer-IsStored sha1 addr connected has_manager t st e r turns last d genuine h k =
      run_peer-Relies store original specs (IsSent turns) sha1 addr connected has_manager d genuine
        t st e r turns last h
        (Relies-of_Others (IsSent turns) sha1 addr connected has_manager d genuine turns (λ x m. m)
          k)
