-- ===== src/Engine/Loop/Starts.antt =====
-- What a call of _start_piece of src/aiobt/engine.py leaves as it was.
use aiobt.Choking.{Addr}
use aiobt.Engine.Endgame.{EndgameState}
use aiobt.Engine.Start.{
  endgame_pick, activate, start_piece, start_found, start_endgame, find_piece, skip_failed,
  start_at, Started,
}
use aiobt.Piece.{
  is_complete, or_index_error, PieceTracker, PieceSpec, spec, mark_pending, mark_failed,
  select_piece,
}
use aiobt.Python.IntSet.{has, IntSet}
use aiobt.Python.Result.{>>=-eq-ok, subst_ok, ok}
use aiobt.Prelude.{
  get_elem?, sym, ap, some-injective, refl, Bool-cases, ◌≡◌, Option, ◌∙◌, ℕ, zero, suc, none, some,
  inl, inr,
}

-- The pieces that are had and the specs are the same.
pub record Keeps (t u : PieceTracker) : Type 0 where
  pub same_have : u.have ≡ t.have
  pub same_specs : u.specs ≡ t.specs

Keeps-trans : (t u v : PieceTracker) → Keeps t u → Keeps u v → Keeps t v
Keeps-trans t u v a b = record {
  same_have = b.same_have ∙ a.same_have;
  same_specs = b.same_specs ∙ a.same_specs;
}

Keeps-mark_pending : (t : PieceTracker) (i : ℕ) → Keeps t (mark_pending t i)
unfolding mark_pending
Keeps-mark_pending t i = record { same_have = refl; same_specs = refl }

pub Keeps-mark_failed : (t : PieceTracker) (i : ℕ) → Keeps t (mark_failed t i)
unfolding mark_failed
Keeps-mark_failed t i = record { same_have = refl; same_specs = refl }

Keeps-skip_failed : (t : PieceTracker) (s : IntSet) (o : Option ℕ) → Keeps t (skip_failed t s o).0
unfolding skip_failed
Keeps-skip_failed t s none = record { same_have = refl; same_specs = refl }
Keeps-skip_failed t s (some j) = elim (Bool-cases (has j s)) [
  | inl e ↦ rw e (record { same_have = refl; same_specs = refl })
  | inr e ↦ rw e (Keeps-mark_failed t j)
]

Keeps-find_piece :
    (f : ℕ) (t : PieceTracker) (s : IntSet) (o : Option ℕ) {r : PieceTracker × Option ℕ}
    → find_piece f t s o ≡ ok r
    → Keeps t r.0
unfolding find_piece
Keeps-find_piece f t s none e =
    subst_ok (λ r. Keeps t r.0) e (record { same_have = refl; same_specs = refl })
Keeps-find_piece zero t s (some i) e = elim (Bool-cases (has i s)) [
  | inl h ↦ subst_ok (λ r. Keeps t r.0) (rw h at e) (record { same_have = refl; same_specs = refl })
  | inr h ↦ let wrong = rw h at e in cc
]
Keeps-find_piece (suc f) t s (some i) e = elim (Bool-cases (has i s)) [
  | inl h ↦ subst_ok (λ r. Keeps t r.0) (rw h at e) (record { same_have = refl; same_specs = refl })
  | inr h ↦
      let t' = mark_pending t i in
      let (u, o) = skip_failed t' s (select_piece t') in
      let first =
        Keeps-trans t t' u (Keeps-mark_pending t i) (Keeps-skip_failed t' s (select_piece t')) in
      Keeps-trans t u _ first (Keeps-find_piece f u s o (rw h at e))
]

-- A result for the tracker t: the tracker itself, and a choice with its spec.
abbrev pub IsFrom : PieceTracker → Started → Type 0
IsFrom t r =
    Keeps t r.tracker × ((i : ℕ) (sp : PieceSpec) → r.choice ≡ some (i, sp) → spec t i ≡ ok sp)

start_at-IsFrom :
    (t : PieceTracker) (e : Option EndgameState) (a : Addr) (o : Option ℕ) {r : Started}
    → start_at t e a o ≡ ok r
    → IsFrom t r
start_at-IsFrom t e a none {r} h =
    subst_ok (λ r. IsFrom t r) h (record { same_have = refl; same_specs = refl }, λ i sp c. cc)
start_at-IsFrom t e a (some i) {r} h =
    let (s, p, q) = >>=-eq-ok (spec t i) _ h in
    subst_ok (λ r. IsFrom t r) q
      (
        record { same_have = refl; same_specs = refl },
        λ j sp c.
            let pair = some-injective c in
            ap (spec t) (sym (ap (λ x. x.0) pair)) ∙ p ∙ ap (λ x. ok x.1) pair,
      )

start_endgame-IsFrom :
    (t : PieceTracker) (s : IntSet) (e : Option EndgameState) (a : Addr) {r : Started}
    → start_endgame t s e a ≡ ok r
    → IsFrom t r
unfolding start_endgame
start_endgame-IsFrom t s none a h = start_at-IsFrom t none a none h
start_endgame-IsFrom t s (some e) a h = elim (Bool-cases (is_complete t)) [
  | inl c ↦ start_at-IsFrom t (some e) a none (rw c at h)
  | inr c ↦ elim (Bool-cases (activate e t).active) [
    | inl d ↦
        start_at-IsFrom t (some (activate e t)) a (endgame_pick (activate e t).pieces s t.have)
          (rw (c, d) at h)
    | inr d ↦ start_at-IsFrom t (some (activate e t)) a none (rw (c, d) at h)
  ]
]

IsFrom-Keeps : (t u : PieceTracker) (r : Started) → Keeps t u → IsFrom u r → IsFrom t r
unfolding spec
IsFrom-Keeps t u r k (k', c) = (
  Keeps-trans t u r.tracker k k',
  λ i sp e. ap (λ l. or_index_error (get_elem? l i)) (sym k.same_specs) ∙ c i sp e,
)

start_found-IsFrom :
    (s : IntSet) (e : Option EndgameState) (a : Addr) (p : PieceTracker × Option ℕ) {r : Started}
    → start_found s e a p ≡ ok r
    → IsFrom p.0 r
start_found-IsFrom s e a (t, none) {r} h = start_endgame-IsFrom t s e a h
start_found-IsFrom s e a (t, some i) {r} h =
    IsFrom-Keeps t (mark_pending t i) r (Keeps-mark_pending t i)
      (start_at-IsFrom (mark_pending t i) e a (some i) h)

pub start_piece-IsFrom :
    (t : PieceTracker) (s : IntSet) (e : Option EndgameState) (a : Addr) {r : Started}
    → start_piece t s e a ≡ ok r
    → IsFrom t r
unfolding start_piece
start_piece-IsFrom t s e a {r} h =
    let (p, found, rest) = >>=-eq-ok (find_piece t.piece_count t s (select_piece t)) _ h in
    IsFrom-Keeps t p.0 r (Keeps-find_piece t.piece_count t s (select_piece t) found)
      (start_found-IsFrom s e a p rest)
