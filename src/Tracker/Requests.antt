-- ===== src/Tracker/Requests.antt =====
-- How a UDP request of src/aiobt/tracker.py ends: with the answer, or without one.
use aiobt.Python.Result.{timeout_error, raised, ok}
use aiobt.Python.Bytes.{Bytes}
use aiobt.Prelude.{
  zero, ◌∙◌, ◌==◌, ap, Bool-cases, suc, refl, ◌+◌, ◌≡◌, All, ◌≤◌, ◌<◌, ◌∷◌, ◌++◌, List, some, inl,
  inr, arith, ℕ,
}
use aiobt.Tracker.Waiters.{result, waiting, Waiters, Arrival, datagram, waiter, expect, receive_all}
use aiobt.Tracker.Delivery.{IsFor, IsStray, first_answer, waiter-stray_list, waiter-expect}
use aiobt.Tracker.Udp.{udp_attempts, udp_request}
use aiobt.Prelude.{zero, suc}

-- Nothing for the transaction arrives before attempt k, and in attempt k the first datagram for
-- it is the given one.
pub record AnswersIn (arrivals : ℕ → List Arrival) (tid : ℕ) (answer : Bytes) (k : ℕ) : Type 0 where
  pub quiet : (i : ℕ) → i < k → All (IsStray tid) (arrivals i)
  pub before : List Arrival
  pub after : List Arrival
  pub arrives : arrivals k ≡ before ++ (datagram answer ∷ after)
  pub before_stray : All (IsStray tid) before

udp_attempts-answer :
    (arrivals : ℕ → List Arrival) (tid : ℕ) (answer : Bytes) (k : ℕ)
    → AnswersIn arrivals tid answer k
    → IsFor tid answer
    → (n left : ℕ) (w : Waiters) → n ≤ k
    → k < n + left
    → (udp_attempts arrivals w tid n left).0 ≡ ok answer
unfolding udp_attempts
udp_attempts-answer arrivals tid answer k h f n zero w le lt = absurd (omega arith)
udp_attempts-answer arrivals tid answer k h f n (suc left) w le lt = elim (Bool-cases (n == k)) [
  | inl e ↦
      let now : n ≡ k = ground arith in
      let e1 : waiter (receive_all (expect w tid) (arrivals n)) tid ≡ some (result answer) =
        ap (λ i. waiter (receive_all (expect w tid) (arrivals i)) tid) now
        ∙ ap (λ l. waiter (receive_all (expect w tid) l) tid) h.arrives
        ∙ first_answer (expect w tid) tid h.before h.after answer (waiter-expect w tid)
            h.before_stray f in
      rw (e1, udp_attempts)
  | inr e ↦
      let later : n < k = ground arith in
      let e1 : waiter (receive_all (expect w tid) (arrivals n)) tid ≡ some waiting =
        waiter-stray_list (expect w tid) tid (arrivals n) (h.quiet n later) ∙ waiter-expect w tid in
      rw (e1, udp_attempts)
        (udp_attempts-answer arrivals tid answer k h f (suc n) left _ (omega arith) (omega arith))
]

-- With one answer within the retries, the request returns it.
pub udp_request-answer :
    (arrivals : ℕ → List Arrival) (w : Waiters) (tid : ℕ) (answer : Bytes) (k max_retries : ℕ)
    → AnswersIn arrivals tid answer k
    → IsFor tid answer
    → k ≤ max_retries
    → (udp_request arrivals w tid max_retries).0 ≡ ok answer
unfolding udp_request
udp_request-answer arrivals w tid answer k max_retries h f le =
    udp_attempts-answer arrivals tid answer k h f 0 (suc max_retries) w (omega arith) (omega arith)

udp_attempts-silence :
    (arrivals : ℕ → List Arrival) (tid n left : ℕ) (w : Waiters)
    → ((i : ℕ) → i < n + left → All (IsStray tid) (arrivals i))
    → (udp_attempts arrivals w tid n left).0 ≡ raised timeout_error
unfolding udp_attempts
udp_attempts-silence arrivals tid n zero w h = refl
udp_attempts-silence arrivals tid n (suc left) w h =
    let e1 : waiter (receive_all (expect w tid) (arrivals n)) tid ≡ some waiting =
      waiter-stray_list (expect w tid) tid (arrivals n) (h n (omega arith)) ∙ waiter-expect w tid in
    rw (e1, udp_attempts)
      (udp_attempts-silence arrivals tid (suc n) left _ (λ i le. h i (omega arith)))

-- A request that no attempt of which brings an answer ends with TimeoutError after the last one.
pub udp_request-silence :
    (arrivals : ℕ → List Arrival) (w : Waiters) (tid max_retries : ℕ)
    → ((i : ℕ) → i ≤ max_retries → All (IsStray tid) (arrivals i))
    → (udp_request arrivals w tid max_retries).0 ≡ raised timeout_error
unfolding udp_request
udp_request-silence arrivals w tid max_retries h =
    udp_attempts-silence arrivals tid 0 (suc max_retries) w (λ i lt. h i (omega arith))
