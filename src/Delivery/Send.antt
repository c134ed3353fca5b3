-- ===== src/Delivery/Send.antt =====
-- The bounded retries of one batch (send_batch_with_retry of apps/listener/batch_delivery.py).
-- The backend is a function from the attempt to its answer; a delay is its milliseconds before the
-- random part.
use brand_sniper_monorepo.Prelude.{
  ℕ, zero, suc, ◌+◌, ◌-◌, ◌*◌, ◌^◌, ◌≤◌, ◌<◌, min, Bool, false, ◌&&◌, ◌||◌, List, [], ◌∷◌,
  if◌then◌else◌, ltb, leb, nat_beq, ◌≡◌, refl, arith, Bool-cases, inl, inr, ◌⊎◌, length,
  nat_beq_iff, subst,
}
use brand_sniper_monorepo.Prelude.Result.{Result, ok, err, value_error, ◌>>◌, raise_if}

-- An answer's status, a transport error or timeout (retried), or any other exception (not caught).
pub data Answer : Type 0 where
  status : ℕ → Answer
  transport_error other_error : Answer

abbrev pub is_success : ℕ → Bool
is_success s = leb 200 s && ltb s 300

-- `response.status in {408, 425, 429} or response.status >= 500`
abbrev pub is_retryable : ℕ → Bool
is_retryable s = (nat_beq s 408 || nat_beq s 425 || nat_beq s 429) || leb 500 s

-- How a send ends: delivered, given up after a retryable answer or not, or with an exception.
pub data Ending : Type 0 where
  delivered exhausted rejected crashed : Ending

pub record Sent : Type 0 where
  pub ending : Ending
  pub attempts : ℕ
  pub delays : List ℕ

-- What an attempt comes to: nothing left to do, or a retry.
pub data Verdict : Type 0 where
  ends : Ending → Verdict
  retryable : Verdict

unfoldable pub judge_answer : Answer → Verdict
judge_answer (status s) =
    if is_success s then ends delivered else if is_retryable s then retryable else ends rejected
judge_answer transport_error = retryable
judge_answer other_error = ends crashed

-- `min(max_delay, base_delay * 2 ** (attempt - 1))`
abbrev pub delay_after : ℕ → ℕ → ℕ → ℕ
delay_after base_delay max_delay attempt = min max_delay (base_delay * 2 ^ (attempt - 1))

abbrev after_delay : ℕ → Sent → Sent
after_delay delay sent = record {
  ending = sent.ending;
  attempts = sent.attempts;
  delays = delay ∷ sent.delays;
}

abbrev pub stop : Ending → ℕ → Sent
stop ending attempt = record { ending = ending; attempts = attempt; delays = [] }

-- Where an attempt ends the loop, it ends here; after a retryable one the loop goes on.
abbrev pub conclude : Verdict → ℕ → Sent → Sent
conclude (ends ending) attempt others = stop ending attempt
conclude retryable attempt others = others

-- The loop from `attempt` on, with `left` attempts after it.
unfoldable pub attempt_from : (ℕ → Answer) → ℕ → ℕ → ℕ → ℕ → Sent
unfolding judge_answer
attempt_from backend base_delay max_delay attempt zero =
    conclude (judge_answer (backend attempt)) attempt (stop exhausted attempt)
attempt_from backend base_delay max_delay attempt (suc left) =
    let rest = attempt_from backend base_delay max_delay (suc attempt) left in
    conclude (judge_answer (backend attempt)) attempt
      (after_delay (delay_after base_delay max_delay attempt) rest)

unfoldable pub send_batch_with_retry : (ℕ → Answer) → ℕ → ℕ → ℕ → Result Sent
send_batch_with_retry backend max_attempts base_delay max_delay = do
  raise_if (ltb max_attempts 1) value_error
  raise_if (leb base_delay 0 || leb max_delay 0) value_error
  ok (attempt_from backend base_delay max_delay 1 (max_attempts - 1))

Verdict-cases : (v : Verdict) → ((e : Ending) × (v ≡ ends e)) ⊎ (v ≡ retryable)
Verdict-cases (ends e) = inl (e, refl)
Verdict-cases retryable = inr refl

-- What the last attempt came to.
pub EndsWith : Verdict → ℕ → ℕ → Ending → Type 0
EndsWith (ends e) attempts limit ending = ending ≡ e
EndsWith retryable attempts limit ending = (attempts ≡ limit) × (ending ≡ exhausted)

-- A send whose attempts run from `first` to `limit` at most: one delay between each two of them,
-- every attempt but the last retryable, and the ending is what the last one came to.
pub Tried : (ℕ → Answer) → ℕ → ℕ → Sent → Type 0
Tried backend first limit sent =
    (first ≤ sent.attempts)
    × (sent.attempts ≤ limit)
    × (sent.attempts ≡ first + length sent.delays)
    × EndsWith (judge_answer (backend sent.attempts)) sent.attempts limit sent.ending
    × ((earlier : ℕ)
        → first ≤ earlier
        → earlier < sent.attempts
        → judge_answer (backend earlier) ≡ retryable)

not_between : (a i : ℕ) → a ≤ i → i < a → ⊥
not_between a i h k = omega (arith, h, k)

stop-Tried :
    (backend : ℕ → Answer) (attempt left : ℕ) (e : Ending)
    → EndsWith (judge_answer (backend attempt)) attempt (attempt + left) e
    → Tried backend attempt (attempt + left) (stop e attempt)
unfolding Tried
stop-Tried backend attempt left e h =
    (omega arith, omega arith, omega arith, h, λ i a b. elim (not_between attempt i a b) [ ])

attempt_from_stops :
    (backend : ℕ → Answer) (base_delay max_delay attempt left : ℕ) (e : Ending)
    → judge_answer (backend attempt) ≡ ends e
    → attempt_from backend base_delay max_delay attempt left ≡ stop e attempt
unfolding attempt_from
attempt_from_stops backend base_delay max_delay attempt zero e h = rw h refl
attempt_from_stops backend base_delay max_delay attempt (suc left) e h = rw h refl

attempt_from_gives_up :
    (backend : ℕ → Answer) (base_delay max_delay attempt : ℕ)
    → judge_answer (backend attempt) ≡ retryable
    → attempt_from backend base_delay max_delay attempt 0 ≡ stop exhausted attempt
unfolding attempt_from
attempt_from_gives_up backend base_delay max_delay attempt h = rw h refl

attempt_from_retries :
    (backend : ℕ → Answer) (base_delay max_delay attempt left : ℕ)
    → judge_answer (backend attempt) ≡ retryable
    → attempt_from backend base_delay max_delay attempt (suc left)
      ≡ after_delay
          (delay_after base_delay max_delay attempt)
          (attempt_from backend base_delay max_delay (suc attempt) left)
unfolding attempt_from
attempt_from_retries backend base_delay max_delay attempt left h = rw h refl

after_delay-Tried :
    (backend : ℕ → Answer) (attempt limit delay : ℕ) (sent : Sent)
    → judge_answer (backend attempt) ≡ retryable
    → Tried backend (suc attempt) limit sent
    → Tried backend attempt limit (after_delay delay sent)
unfolding Tried
after_delay-Tried backend attempt limit delay sent h (low, high, count, ends_with, before) = (
  omega (arith, low),
  high,
  omega (arith, count),
  ends_with,
  λ i a b. elim (Bool-cases (nat_beq i attempt)) [
    | inl e ↦ rw ((nat_beq_iff i attempt).0 e) h
    | inr e ↦ before i (ground (arith, a, e)) b
  ],
)

suc_left : (a b : ℕ) → suc a + b ≡ a + suc b
suc_left a b = omega arith

some_attempt : (n : ℕ) → ltb (suc n) 1 ≡ false
some_attempt n = ground arith

some_delay : (n : ℕ) → leb (suc n) 0 ≡ false
some_delay n = ground arith

one_less : (n : ℕ) → suc n - 1 ≡ n
one_less n = omega arith

one_more : (n : ℕ) → 1 + n ≡ suc n
one_more n = omega arith

attempt_from-Tried :
    (backend : ℕ → Answer) (base_delay max_delay attempt left : ℕ)
    → Tried backend attempt
        (attempt + left)
        (attempt_from backend base_delay max_delay attempt left)
unfolding EndsWith
attempt_from-Tried backend base_delay max_delay attempt zero =
    elim (Verdict-cases (judge_answer (backend attempt))) [
      | inl (e, h) ↦
          rw (attempt_from_stops backend base_delay max_delay attempt 0 e h)
            (stop-Tried backend attempt 0 e (rw h refl))
      | inr h ↦
          rw (attempt_from_gives_up backend base_delay max_delay attempt h)
            (stop-Tried backend attempt 0 exhausted (rw h (omega arith, refl)))
    ]
attempt_from-Tried backend base_delay max_delay attempt (suc left) =
    elim (Verdict-cases (judge_answer (backend attempt))) [
      | inl (e, h) ↦
          rw (attempt_from_stops backend base_delay max_delay attempt (suc left) e h)
            (stop-Tried backend attempt (suc left) e (rw h refl))
      | inr h ↦ rw (attempt_from_retries backend base_delay max_delay attempt left h) (
          after_delay-Tried backend attempt (attempt + suc left)
            (delay_after base_delay max_delay attempt)
            (attempt_from backend base_delay max_delay (suc attempt) left) h
            (subst
              (λ limit.
                Tried backend (suc attempt) limit
                  (attempt_from backend base_delay max_delay (suc attempt) left))
              (suc_left attempt left)
              (attempt_from-Tried backend base_delay max_delay (suc attempt) left)))
    ]

-- A send is refused exactly for fewer than one attempt or a delay of zero. Otherwise it ends after at most
-- `max_attempts` attempts, with one delay between each two of them; every attempt but the last got a
-- retryable answer, and the send ends with what the last one came to: it is given up after a
-- retryable answer only at the last attempt allowed.
pub send_batch_with_retry_lem :
    (backend : ℕ → Answer) (max_attempts base_delay max_delay : ℕ)
    → ((send_batch_with_retry backend max_attempts base_delay max_delay ≡ err value_error)
        × ((max_attempts ≡ 0) ⊎ (base_delay ≡ 0) ⊎ (max_delay ≡ 0)))
      ⊎ ((1 ≤ max_attempts)
          × (0 < base_delay)
          × (0 < max_delay)
          × (sent : Sent) × (send_batch_with_retry backend max_attempts base_delay max_delay
              ≡ ok sent)
          × Tried backend 1 max_attempts sent)
unfolding send_batch_with_retry
send_batch_with_retry_lem backend zero base_delay max_delay = inl (refl, inl refl)
send_batch_with_retry_lem backend (suc n) zero max_delay =
    inl (rw (some_attempt n) refl, inr (inl refl))
send_batch_with_retry_lem backend (suc n) (suc b) zero =
    inl (rw (some_attempt n, some_delay b) refl, inr (inr refl))
send_batch_with_retry_lem backend (suc n) (suc b) (suc d) = inr (
  omega arith,
  omega arith,
  omega arith,
  attempt_from backend (suc b) (suc d) 1 n,
  rw (some_attempt n, some_delay b, some_delay d, one_less n) refl,
  subst (λ limit. Tried backend 1 limit (attempt_from backend (suc b) (suc d) 1 n)) (one_more n)
      (attempt_from-Tried backend (suc b) (suc d) 1 n),
)
