-- ===== src/Run/Ends.antt =====
-- What holds of a call however it ends: it returns in a state that meets a postcondition, or stops
-- the program, by undefined behaviour or by `exit`; it does not wait for ever or use up its rounds.
use threadsafe_memory_manage.Run.{Run, ok, fault, exited, Cmd, and_then}

pub data Ends {S A : Type 0} (P : A → S → Type 0) : Run S A → Type 0 where
  returned : {a : A} {s : S} → P a s → Ends P (ok a s)
  faulted : Ends P fault
  left : Ends P exited

module _ {S A : Type 0} {P : A → S → Type 0} where
  pub bind :
      {B : Type 0} {Q : B → S → Type 0} {r : Run S A} {k : A → Cmd S B}
      → Ends P r
      → ((a : A) (s : S) → P a s → Ends Q (k a s))
      → Ends Q (and_then r k)
  bind (returned p) next = next _ _ p
  bind faulted next = faulted
  bind left next = left

  pub mono :
      {Q : A → S → Type 0} {r : Run S A} → Ends P r → ((a : A) (s : S) → P a s → Q a s) → Ends Q r
  mono (returned p) weaken = returned (weaken _ _ p)
  mono faulted weaken = faulted
  mono left weaken = left
