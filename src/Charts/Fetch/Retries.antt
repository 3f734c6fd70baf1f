-- ===== src/Charts/Fetch/Retries.antt =====
-- The retries end, within a bounded time, and find the answer if there is one.
use mathlib.Core.Path.{subst}
use native.Mathlib.Nat.{add-zero, zero-add}
use shatter_nc.Prelude.{
  ℕ, zero, suc, ◌+◌, ◌≤◌, ◌<◌, ◌≡◌, refl, inl, inr, Bool, true, false, ◌||◌, List, [], arith,
  if◌then◌else◌, nat_beq, Bool-cases,
}
use shatter_nc.Prelude.Text.{Text}
use shatter_nc.Charts.Fetch.{
  Failure, is_compressor_chart_abort_error, Attempt, Outcome, Trace, receive, stop, after, backoff,
  caught, handle, retry, attempts_of, fetch_compressor_status_samples,
}

-- the waits of a call all of whose attempts fail
abbrev pub longest : ℕ → ℕ → ℕ
longest zero attempt = 0
longest (suc zero) attempt = 0
longest (suc (suc left)) attempt = backoff attempt + longest (suc left) (attempt + 1)

nat_beq-suc : (n : ℕ) → nat_beq (suc n) 0 ≡ false
nat_beq-suc n = ground arith

module _ {R : Type 0} where
  -- at most `n` requests, and `ms` of waiting
  abbrev pub Within : ℕ → ℕ → Trace R → Type 0
  Within n ms t = (t.requests ≤ n) × (t.waited ≤ ms)

  caught-Within :
      (a : Attempt R) (attempt left : ℕ) (e : Failure) (rest : Trace R)
      → Within left (longest left (attempt + 1)) rest
      → Within (suc left) (longest (suc left) attempt) (caught a attempt e left rest)
  unfolding caught
  caught-Within a attempt zero e rest (n, w) =
      elim (Bool-cases (a.aborted_after || is_compressor_chart_abort_error e)) [
        | inl b ↦ rw b (omega arith, omega arith)
        | inr b ↦ rw b (omega arith, omega arith)
      ]
  caught-Within a attempt (suc left) e rest (n, w) =
      elim (Bool-cases (a.aborted_after || is_compressor_chart_abort_error e)) [
        | inl b ↦ rw b (omega arith, omega arith)
        | inr b ↦ elim (Bool-cases a.aborted_waiting) [
          | inl c ↦ rw (b, nat_beq-suc left, c) (omega arith, omega arith)
          | inr c ↦ rw (b, nat_beq-suc left, c) (omega (arith, n), omega (arith, w))
        ]
      ]

  if-Within :
      (n ms : ℕ) (b : Bool) (t u : Trace R)
      → Within n ms t
      → Within n ms u
      → Within n ms (if b then t else u)
  if-Within n ms true t u h k = h
  if-Within n ms false t u h k = k

  handle-Within :
      (o : Outcome R) (a : Attempt R) (attempt left : ℕ) (rest : Failure → Trace R)
      → ((e : Failure) → Within left (longest left (attempt + 1)) (rest e))
      → Within (suc left) (longest (suc left) attempt) (handle o a attempt left rest)
  handle-Within (Outcome.samples rows) a attempt left rest h = (omega arith, omega arith)
  handle-Within (Outcome.failed e) a attempt left rest h =
      caught-Within a attempt left e (rest e) (h e)

  retry-Within :
      (world : ℕ → Attempt R) (left attempt : ℕ) (last : Failure)
      → Within left (longest left attempt) (retry world left attempt last)
  unfolding retry
  retry-Within world zero attempt last = (omega arith, omega arith)
  retry-Within world (suc left) attempt last =
      if-Within (suc left) (longest (suc left) attempt) (world attempt).aborted_before
        (stop (Outcome.failed Failure.aborted)) _ (omega arith, omega arith)
        (handle-Within (receive (world attempt).reply) (world attempt) attempt left
          (λ e. retry world left (attempt + 1) e) (λ e. retry-Within world left (attempt + 1) e))

  -- However the network and the signal behave, the call ends after at most three requests and 1,050
  -- milliseconds of waiting between them, and a call that is not the first ends after one request
  -- and no wait.
  pub fetch_compressor_status_samples-Within :
      (world : ℕ → Attempt R) (is_initial : Bool)
      → Within
          (attempts_of is_initial)
          (if is_initial then 1_050 else 0)
          (fetch_compressor_status_samples world is_initial)
  unfolding fetch_compressor_status_samples
  fetch_compressor_status_samples-Within world true = retry-Within world 3 0 (Failure.error [])
  fetch_compressor_status_samples-Within world false = retry-Within world 1 0 (Failure.error [])

  -- an attempt that fails with an error, while nothing is aborted
  pub record Fails (a : Attempt R) : Type 0 where
    pub message : Text
    pub before : a.aborted_before ≡ false
    pub after_ : a.aborted_after ≡ false
    pub waiting : a.aborted_waiting ≡ false
    pub reply_fails : receive a.reply ≡ Outcome.failed (Failure.error message)

  retry_good :
      (world : ℕ → Attempt R) (rows : List R) (left attempt : ℕ) (last : Failure)
      → (world attempt).aborted_before ≡ false
      → receive (world attempt).reply ≡ Outcome.samples rows
      → retry world (suc left) attempt last ≡ after 0 (stop (Outcome.samples rows))
  unfolding retry
  retry_good world rows left attempt last b r = rw (b, r) refl

  retry-Fails :
      (world : ℕ → Attempt R) (left attempt : ℕ) (last : Failure) (f : Fails (world attempt))
      → retry world (suc (suc left)) attempt last
        ≡ after (backoff attempt) (retry world (suc left) (attempt + 1) (Failure.error f.message))
  unfolding retry caught
  retry-Fails world left attempt last f =
      rw (f.before, f.reply_fails, f.after_, nat_beq-suc left, f.waiting) refl

  retry-recovers :
      (world : ℕ → Attempt R) (rows : List R) (k left attempt : ℕ) (last : Failure)
      → ((j : ℕ) → j < k → Fails (world (attempt + j)))
      → (world (attempt + k)).aborted_before ≡ false
      → receive (world (attempt + k)).reply ≡ Outcome.samples rows
      → k < left
      → ((retry world left attempt last).outcome ≡ Outcome.samples rows)
        × ((retry world left attempt last).requests ≡ k + 1)
  retry-recovers world rows k zero attempt last f b r l = absurd (omega arith)
  retry-recovers world rows zero (suc left) attempt last f b r l =
      rw (retry_good world rows left attempt last (rw add-zero at b) (rw add-zero at r))
        (refl, omega arith)
  retry-recovers world rows (suc k) (suc zero) attempt last f b r l = absurd (omega arith)
  retry-recovers world rows (suc k) (suc (suc left)) attempt last f b r l =
      let shift : attempt + suc k ≡ attempt + 1 + k = omega arith in
      let first : Fails (world attempt) = rw add-zero at (f 0 (omega arith)) in
      let (o, n) =
        retry-recovers world rows k (suc left) (attempt + 1) (Failure.error first.message)
          (λ j h. subst (λ i. Fails (world i)) (omega arith) (f (suc j) (omega arith)))
          (rw shift at b) (rw shift at r) (omega arith) in
      rw (retry-Fails world left attempt last first) (o, omega (arith, n))

  -- A call whose first attempts fail with errors returns the rows of the first answer that is good,
  -- if it comes within the attempts that the call has, and sends no request after it.
  pub fetch_compressor_status_samples-recovers :
      (world : ℕ → Attempt R) (is_initial : Bool) (rows : List R) (k : ℕ)
      → ((j : ℕ) → j < k → Fails (world j))
      → (world k).aborted_before ≡ false
      → receive (world k).reply ≡ Outcome.samples rows
      → k < attempts_of is_initial
      → ((fetch_compressor_status_samples world is_initial).outcome ≡ Outcome.samples rows)
        × ((fetch_compressor_status_samples world is_initial).requests ≡ k + 1)
  unfolding fetch_compressor_status_samples
  fetch_compressor_status_samples-recovers world is_initial rows k f b r l =
      retry-recovers world rows k (attempts_of is_initial) 0 (Failure.error [])
        (λ j h. rw zero-add (f j h)) (rw zero-add b) (rw zero-add r) l
