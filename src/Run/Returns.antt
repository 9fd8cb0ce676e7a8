-- ===== src/Run/Returns.antt =====
-- Total correctness of a call: it returns, and its result and final state meet a postcondition.
-- A run that faults, blocks or uses up its fuel has no such derivation.
use threadsafe_memory_manage.Prelude.{◌≡◌, subst}
use threadsafe_memory_manage.Run.{Run, ok, fault, Cmd, and_then}

pub data Returns {S A : Type 0} (P : A → S → Type 0) : Run S A → Type 0 where
  returns : {a : A} {s : S} → P a s → Returns P (ok a s)

module _ {S A : Type 0} {P : A → S → Type 0} where
  -- Both halves of a sequence, composed at the state between them.
  pub bind :
      {B : Type 0} {Q : B → S → Type 0} {r : Run S A} {k : A → Cmd S B}
      → Returns P r
      → ((a : A) (s : S) → P a s → Returns Q (k a s))
      → Returns Q (and_then r k)
  bind (returns p) next = next _ _ p

  pub mono :
      {Q : A → S → Type 0} {r : Run S A}
      → Returns P r
      → ((a : A) (s : S) → P a s → Q a s)
      → Returns Q r
  mono (returns p) weaken = returns (weaken _ _ p)

  -- What follows a call that returns decides whether the sequence faults.
  pub bind-fault :
      {B : Type 0} {r : Run S A} {k : A → Cmd S B}
      → Returns P r
      → ((a : A) (s : S) → P a s → k a s ≡ fault)
      → and_then r k ≡ fault
  bind-fault (returns p) faults = faults _ _ p

  of_returns : {a : A} {s : S} → Returns P (ok a s) → P a s
  of_returns (returns p) = p

  -- What is known of a run that has returned.
  pub of_ok : {r : Run S A} {a : A} {s : S} → Returns P r → r ≡ ok a s → P a s
  of_ok r e = of_returns (subst (Returns P) e r)
