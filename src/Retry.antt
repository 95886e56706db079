-- ===== src/Retry.antt =====
-- pkg/retry/retry.go: Operation. The state that the operation works on, its errors and the context
-- are parameters; `live k` is ctx.Err() == nil before attempt k, and `waits k` says that the timer
-- after attempt k fires before the context is done.
pub mod Attempts
use hauler.Base.{
  ℕ, zero, suc, ◌-◌, ltb, Bool, true, false, not, ◌++◌, Option, none, some, List, [], ◌∷◌,
  if◌then◌else◌,
}
use hauler.Base.Int.{ℤ, pos, negsuc, is_positive, to_ℕ}
use hauler.Consts.{default_retries}

-- the line that an attempt logs: its level, its number, and whether it is a tlog verification error
pub record Line : Type 0 where
  pub warns : Bool
  pub attempt : ℕ
  pub tlog : Bool

pub data RetryError (E : Type 0) : Type 0 where
  canceled : RetryError E
  unsuccessful : ℕ → Option E → RetryError E

-- what Operation returns, the state after it, how often the operation was called, and what was logged
pub record Retried (S E : Type 0) : Type 0 where
  pub result : Option (RetryError E)
  pub state : S
  pub calls : ℕ
  pub lines : List Line

-- rso.Retries, or the default
abbrev pub effective_retries : ℤ → ℕ
effective_retries retries = if is_positive retries then to_ℕ retries else default_retries

abbrev ended : {S E : Type 0} → RetryError E → S → Retried S E
ended e s = record { result = some e; state = s; calls = 0; lines = [] }

-- one more call, with the line that it logged
abbrev counted : {S E : Type 0} → List Line → Retried S E → Retried S E
counted lines r = record r { calls = suc r.calls; lines = lines ++ r.lines }

module _ {S E : Type 0} (operation : S → Option E × S) (is_tlog : E → Bool) (live waits : ℕ → Bool)
    (ignore_errors : Bool) where
  -- the attempts that are left, from the attempt of this number
  unfoldable pub attempts : ℕ → ℕ → ℕ → Option E → S → Retried S E
  attempts retries attempt zero last s = ended (unsuccessful retries last) s
  attempts retries attempt (suc left) last s =
      let (e, s1) = operation s in
      elim (live attempt) [
        | false ↦ ended canceled s
        | true ↦ elim e [
          | none ↦ record { result = none; state = s1; calls = 1; lines = [] }
          | some x ↦
              let line : Line = record {
                warns = ignore_errors;
                attempt = attempt;
                tlog = is_tlog x;
              } in
              let rest = attempts retries (suc attempt) left (some x) s1 in
              if not (ltb attempt retries)
              then counted (line ∷ []) rest
              else if waits attempt
              then counted (line ∷ []) rest
              else counted (line ∷ []) (ended canceled s1)
        ]
      ]

  -- Operation
  unfoldable pub retry_operation : ℤ → S → Retried S E
  retry_operation retries s =
      attempts (effective_retries retries) 1 (effective_retries retries) none s
