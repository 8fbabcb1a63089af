-- ===== src/Piece/History.antt =====
-- What the marks of src/aiobt/piece.py say together: mark_have, mark_pending and mark_failed, called
-- in any order.
use aiobt.Python.Result.{subst_ok, ok}
use aiobt.Python.Bytes.{Bytes}
use aiobt.Python.IntSet.{has}
use aiobt.Piece.{new_tracker, PieceTracker}
use aiobt.Piece.Marks.{
  have, pending, failed, apply_mark_lem, apply_mark, failed_after, failed, had_after, pending_after,
  apply_marks, Mark,
}
use aiobt.Prelude.{
  refl, zero, inr, ap, sym, ◌∙◌, All, [], ◌⊎◌, suc, ◌↔◌, inl, ◌∷◌, arith, ◌==◌, true, false, ◌≡◌,
  ◌||◌, if◌then◌else◌, List, ℕ, Bool,
}

abbrev is_have : ℕ → Mark → Bool
is_have j (have i) = i == j
is_have j _ = false

abbrev is_pending : ℕ → Mark → Bool
is_pending j (pending i) = i == j
is_pending j _ = false

abbrev is_failed : ℕ → Mark → Bool
is_failed j (failed i) = i == j
is_failed j _ = false

-- Some mark sets, and none after it clears.
abbrev IsMarked : (Mark → Bool) → (Mark → Bool) → List Mark → Type 0
IsMarked sets clears [] = ⊥
IsMarked sets clears (m ∷ ms) =
    IsMarked sets clears ms ⊎ ((sets m ≡ true) × All (λ k. clears k ≡ false) ms)

-- A flag that marks set and clear.
abbrev flag_after : (Mark → Bool) → (Mark → Bool) → Bool → Mark → Bool
flag_after sets clears b m = if sets m then true else if clears m then false else b

abbrev flag_at : (Mark → Bool) → (Mark → Bool) → Bool → List Mark → Bool
flag_at sets clears b [] = b
flag_at sets clears b (m ∷ ms) = flag_at sets clears (flag_after sets clears b m) ms

flag_after-cases :
    (sets clears : Mark → Bool) (b : Bool) (m : Mark)
    → flag_after sets clears b m ≡ true
    → (sets m ≡ true) ⊎ ((b ≡ true) × (clears m ≡ false))
flag_after-cases sets clears b m h = ground arith

flag_at-set :
    (sets clears : Mark → Bool) (b : Bool) (ms : List Mark)
    → flag_at sets clears b ms ≡ true
    → IsMarked sets clears ms ⊎ ((b ≡ true) × All (λ k. clears k ≡ false) ms)
flag_at-set sets clears b [] h = inr (h, tt)
flag_at-set sets clears b (m ∷ ms) h =
    elim (flag_at-set sets clears (flag_after sets clears b m) ms h) [
      | inl k ↦ inl (inl k)
      | inr (e, a) ↦ elim (flag_after-cases sets clears b m e) [
        | inl s ↦ inl (inr (s, a))
        | inr (t, c) ↦ inr (t, (c, a))
      ]
    ]

flag_at-kept :
    (sets clears : Mark → Bool) (b : Bool) (ms : List Mark)
    → b ≡ true
    → All (λ k. clears k ≡ false) ms
    → flag_at sets clears b ms ≡ true
flag_at-kept sets clears b [] h a = h
flag_at-kept sets clears b (m ∷ ms) h a =
    let e : flag_after sets clears b m ≡ true = ground (arith, a.0) in
    flag_at-kept sets clears (flag_after sets clears b m) ms e a.1

flag_at-marked :
    (sets clears : Mark → Bool) (b : Bool) (ms : List Mark)
    → IsMarked sets clears ms
    → flag_at sets clears b ms ≡ true
flag_at-marked sets clears b [] h = absurd h
flag_at-marked sets clears b (m ∷ ms) (inl h) =
    flag_at-marked sets clears (flag_after sets clears b m) ms h
flag_at-marked sets clears b (m ∷ ms) (inr (s, a)) =
    let e : flag_after sets clears b m ≡ true = ground arith in
    flag_at-kept sets clears (flag_after sets clears b m) ms e a

flag_at_iff :
    (sets clears : Mark → Bool) (ms : List Mark)
    → (flag_at sets clears false ms ≡ true) ↔ IsMarked sets clears ms
flag_at_iff sets clears ms = (
  λ h. elim (flag_at-set sets clears false ms h) [ inl k ↦ k | inr (e, a) ↦ cc ],
  flag_at-marked sets clears false ms,
)

-- What ends that a piece is pending.
abbrev ends_pending : ℕ → Mark → Bool
ends_pending j m = is_have j m || is_failed j m

had_after_eq :
    (t : PieceTracker) (m : Mark) (j : ℕ)
    → had_after t m j ≡ flag_after (is_have j) (λ k. false) (has j t.have) m
had_after_eq t (have i) j = refl
had_after_eq t (pending i) j = refl
had_after_eq t (failed i) j = refl

pending_after_eq :
    (t : PieceTracker) (m : Mark) (j : ℕ)
    → pending_after t m j ≡ flag_after (is_pending j) (ends_pending j) (has j t.pending) m
pending_after_eq t (have i) j = ground arith
pending_after_eq t (pending i) j = refl
pending_after_eq t (failed i) j = ground arith

failed_after_eq :
    (t : PieceTracker) (m : Mark) (j : ℕ)
    → failed_after t m j ≡ flag_after (is_failed j) (is_have j) (has j t.failed) m
failed_after_eq t (have i) j = refl
failed_after_eq t (pending i) j = refl
failed_after_eq t (failed i) j = refl

apply_marks-flags :
    (t : PieceTracker) (ms : List Mark) (j : ℕ)
    → (has j (apply_marks t ms).have ≡ flag_at (is_have j) (λ k. false) (has j t.have) ms)
      × (has j (apply_marks t ms).pending
          ≡ flag_at (is_pending j) (ends_pending j) (has j t.pending) ms)
      × (has j (apply_marks t ms).failed ≡ flag_at (is_failed j) (is_have j) (has j t.failed) ms)
unfolding apply_marks
apply_marks-flags t [] j = (refl, refl, refl)
apply_marks-flags t (m ∷ ms) j =
    let (h, p, f) = apply_marks-flags (apply_mark t m) ms j in
    let (h', p', f') = apply_mark_lem t m j in
    (
      h ∙ ap (λ b. flag_at (is_have j) (λ k. false) b ms) (h' ∙ had_after_eq t m j),
      p ∙ ap (λ b. flag_at (is_pending j) (ends_pending j) b ms) (p' ∙ pending_after_eq t m j),
      f ∙ ap (λ b. flag_at (is_failed j) (is_have j) b ms) (f' ∙ failed_after_eq t m j),
    )

-- The marks of a list say which sets of the tracker hold piece j.
abbrev pub HistoryIs : PieceTracker → List Mark → ℕ → Type 0
HistoryIs u ms j =
    ((has j u.have ≡ true) ↔ IsMarked (is_have j) (λ m. false) ms)
    × ((has j u.pending ≡ true) ↔ IsMarked (is_pending j) (ends_pending j) ms)
    × ((has j u.failed ≡ true) ↔ IsMarked (is_failed j) (is_have j) ms)

new_tracker-empty :
    (pl total : ℕ) (raw : Bytes) (j : ℕ) {t : PieceTracker}
    → new_tracker pl total raw ≡ ok t
    → (has j t.have ≡ false) × (has j t.pending ≡ false) × (has j t.failed ≡ false)
unfolding new_tracker has
new_tracker-empty zero total raw j h = cc
new_tracker-empty (suc p) total raw j h =
    subst_ok (λ t. (has j t.have ≡ false) × (has j t.pending ≡ false) × (has j t.failed ≡ false)) h
      (refl, refl, refl)

iff-of_eq : {b c : Bool} {P : Type 0} → b ≡ c → (c ≡ true) ↔ P → (b ≡ true) ↔ P
iff-of_eq e (f, g) = (λ h. f (sym e ∙ h), λ p. e ∙ g p)

-- Whatever marks follow on a new tracker, a piece is had exactly if it was once marked so; it is
-- pending exactly if it was marked so and neither marked had nor failed since; and it is failed
-- exactly if it was marked so and not marked had since.
pub apply_marks_history :
    (pl total : ℕ) (raw : Bytes) (ms : List Mark) (j : ℕ) {t : PieceTracker}
    → new_tracker pl total raw ≡ ok t
    → HistoryIs (apply_marks t ms) ms j
apply_marks_history pl total raw ms j {t} new =
    let (h, p, f) = apply_marks-flags t ms j in
    let (h', p', f') = new_tracker-empty pl total raw j new in
    (
      iff-of_eq (h ∙ ap (λ b. flag_at (is_have j) (λ k. false) b ms) h')
          (flag_at_iff (is_have j) (λ k. false) ms),
      iff-of_eq (p ∙ ap (λ b. flag_at (is_pending j) (ends_pending j) b ms) p')
          (flag_at_iff (is_pending j) (ends_pending j) ms),
      iff-of_eq (f ∙ ap (λ b. flag_at (is_failed j) (is_have j) b ms) f')
          (flag_at_iff (is_failed j) (is_have j) ms),
    )
