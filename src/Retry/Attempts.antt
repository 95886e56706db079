-- ===== src/Retry/Attempts.antt =====
-- How often Operation calls the operation, and with what it ends.
use hauler.Base.{
  ℕ, zero, suc, ◌≤◌, ◌<◌, ◌≡◌, refl, inl, inr, Bool, true, Option, none, some, length, Option-cases,
  Bool-cases, arith, is_some,
}
use hauler.Base.Int.{ℤ}
use hauler.Retry.{unsuccessful, effective_retries, attempts, retry_operation}

module _ {S E : Type 0} (operation : S → Option E × S) where
  -- the state after so many calls of the operation
  pub state_after : ℕ → S → S
  state_after zero s = s
  state_after (suc n) s = state_after n (operation s).1

  -- the answer of the call after so many others
  unfoldable pub answer : ℕ → S → Option E
  answer zero s = (operation s).0
  answer (suc n) s = answer n (operation s).1

  -- the error of the last of so many calls
  pub last_error : ℕ → Option E → S → Option E
  last_error zero last s = last
  last_error (suc n) last s = last_error n (operation s).0 (operation s).1

  module _ (is_tlog : E → Bool) (live waits : ℕ → Bool) (ignore_errors : Bool) where
    -- what is logged is one line for each failed call, and calls are bounded by the attempts
    attempts-bounded :
        (retries attempt left : ℕ) (last : Option E) (s : S)
        → (attempts operation is_tlog live waits ignore_errors retries attempt left last s).calls
          ≤ left
    unfolding attempts
    attempts-bounded retries attempt zero last s = omega arith
    attempts-bounded retries attempt (suc left) last s =
        let (e, s1) = operation s in
        elim (Bool-cases (live attempt)) [
          | inr dead ↦ rw (dead, attempts) (omega arith)
          | inl alive ↦ elim (Option-cases e) [
            | inl fine ↦ rw (alive, fine, attempts) (omega arith)
            | inr (x, failed) ↦
                ground
                  (arith, alive, failed, attempts-bounded retries (suc attempt) left (some x) s1)
          ]
        ]

    -- a success is that of the last call, and its state the one that is returned
    attempts-last :
        (retries attempt left : ℕ) (last : Option E) (s : S)
        → (attempts operation is_tlog live waits ignore_errors retries attempt left last s).result
          ≡ none
        → (s' : S) × ((operation s').0 ≡ none)
          × ((attempts operation is_tlog live waits ignore_errors retries attempt left last s).state
              ≡ (operation s').1)
    unfolding attempts
    attempts-last retries attempt zero last s h = absurd (ground arith)
    attempts-last retries attempt (suc left) last s h =
        let (e, s1) = operation s in
        elim (Bool-cases (live attempt)) [
          | inr dead ↦ absurd (ground arith)
          | inl alive ↦ elim (Option-cases e) [
            | inl fine ↦ (s, fine, rw (alive, attempts) (rw (fine) refl))
            | inr (x, failed) ↦
                let next =
                  attempts operation is_tlog live waits ignore_errors retries (suc attempt) left
                    (some x) s1 in
                let goes_on : next.result ≡ none = ground (arith, alive, failed, h) in
                let (s', ok, same) = attempts-last retries (suc attempt) left (some x) s1 goes_on in
                (s', ok, ground (arith, alive, failed, h, same))
          ]
        ]

    pub retry_operation-last :
        (retries : ℤ) (s : S)
        → (retry_operation operation is_tlog live waits ignore_errors retries s).result ≡ none
        → (s' : S) × ((operation s').0 ≡ none)
          × ((retry_operation operation is_tlog live waits ignore_errors retries s).state
              ≡ (operation s').1)
    unfolding retry_operation
    retry_operation-last retries s h =
        attempts-last (effective_retries retries) 1 (effective_retries retries) none s h

    module _ (lives : (k : ℕ) → live k ≡ true) (goes_on : (k : ℕ) → waits k ≡ true) where
      attempts-succeed :
          (retries attempt left k : ℕ) (last : Option E) (s : S)
          → k < left
          → ((j : ℕ) → j < k → is_some (answer j s) ≡ true)
          → answer k s ≡ none
          → let r =
              attempts operation is_tlog live waits ignore_errors retries attempt left last s in
            (r.result ≡ none)
            × (r.state ≡ state_after (suc k) s)
            × (r.calls ≡ suc k)
            × (length r.lines ≡ k)
      unfolding attempts state_after answer
      attempts-succeed retries attempt zero k last s before fails succeeds = absurd (omega arith)
      attempts-succeed retries attempt (suc left) zero last s before fails succeeds =
          rw (lives attempt, succeeds, attempts) (refl, refl, refl, refl)
      attempts-succeed retries attempt (suc left) (suc k) last s before fails succeeds =
          let (e, s1) = operation s in
          elim (Option-cases e) [
            | inl fine ↦ cc (rw (fine, answer) at (fails 0 (omega arith)))
            | inr (x, failed) ↦
                let (ended_well, ended_at, called, logged) =
                  attempts-succeed retries (suc attempt) left k (some x) s1 (omega arith)
                    (λ j lower. fails (suc j) (omega arith)) succeeds in
                ground (
                  arith,
                  lives attempt,
                  goes_on attempt,
                  failed,
                  ended_well,
                  ended_at,
                  called,
                  logged,
                )
          ]

      attempts-give_up :
          (retries attempt left : ℕ) (last : Option E) (s : S)
          → ((j : ℕ) → j < left → is_some (answer j s) ≡ true)
          → let r =
              attempts operation is_tlog live waits ignore_errors retries attempt left last s in
            (r.result ≡ some (unsuccessful retries (last_error left last s)))
            × (r.calls ≡ left)
            × (length r.lines ≡ left)
      unfolding attempts last_error answer
      attempts-give_up retries attempt zero last s fails = (refl, refl, refl)
      attempts-give_up retries attempt (suc left) last s fails =
          let (e, s1) = operation s in
          elim (Option-cases e) [
            | inl fine ↦ cc (rw (fine, answer) at (fails 0 (omega arith)))
            | inr (x, failed) ↦
                let (ended_so, called, logged) =
                  attempts-give_up retries (suc attempt) left (some x) s1
                    (λ j lower. fails (suc j) (omega arith)) in
                rw failed
                  (ground (arith, lives attempt, goes_on attempt, failed, ended_so, called, logged))
          ]

      -- While the context is live, an operation that fails k times, fewer than the attempts, and then
      -- succeeds, is called k + 1 times: Operation returns no error and the state of that call, and has
      -- logged one line for each failure.
      pub retry_operation-succeeds :
          (retries : ℤ) (k : ℕ) (s : S)
          → k < effective_retries retries
          → ((j : ℕ) → j < k → is_some (answer j s) ≡ true)
          → answer k s ≡ none
          → let r = retry_operation operation is_tlog live waits ignore_errors retries s in
            (r.result ≡ none)
            × (r.state ≡ state_after (suc k) s)
            × (r.calls ≡ suc k)
            × (length r.lines ≡ k)
      unfolding retry_operation
      retry_operation-succeeds retries k s before fails succeeds =
          attempts-succeed (effective_retries retries) 1 (effective_retries retries) k none s before
            fails succeeds

      -- While the context is live, an operation that fails at every attempt is called exactly as often
      -- as there are attempts, and Operation returns the error of the last call.
      pub retry_operation-gives_up :
          (retries : ℤ) (s : S)
          → ((j : ℕ) → j < effective_retries retries → is_some (answer j s) ≡ true)
          → let n = effective_retries retries in
            let r = retry_operation operation is_tlog live waits ignore_errors retries s in
            (r.result ≡ some (unsuccessful n (last_error n none s)))
            × (r.calls ≡ n)
            × (length r.lines ≡ n)
      unfolding retry_operation
      retry_operation-gives_up retries s fails =
          attempts-give_up (effective_retries retries) 1 (effective_retries retries) none s fails
