-- ===== src/Run.antt =====
-- What a call can do: return, run into undefined behaviour, block on a mutex that its own thread
-- holds, end the program by `exit (1)`, or use up the rounds given to a loop. A call on a state of type S is a `Cmd`.
pub mod Returns
pub mod Ends
use threadsafe_memory_manage.Prelude.{◌≡◌, refl, Bool, true, false, if◌then◌else◌}

pub data Run (S A : Type 0) : Type 0 where
  ok : A → S → Run S A
  fault : Run S A
  deadlock : Run S A
  exited : Run S A
  out_of_fuel : Run S A

abbrev pub Cmd : Type 0 → Type 0 → Type 0
Cmd S A = S → Run S A

module _ {S : Type 0} where
  abbrev pub pure : {A : Type 0} → A → Cmd S A
  pure a s = ok a s

  abbrev pub and_then : {A B : Type 0} → Run S A → (A → Cmd S B) → Run S B
  and_then (ok a s) k = k a s
  and_then fault k = fault
  and_then deadlock k = deadlock
  and_then exited k = exited
  and_then out_of_fuel k = out_of_fuel

  infixl 5 ◌>>=◌ ◌>>◌
  abbrev pub ◌>>=◌ : {A B : Type 0} → Cmd S A → (A → Cmd S B) → Cmd S B
  ◌>>=◌ m k s = and_then (m s) k

  abbrev pub ◌>>◌ : {A B : Type 0} → Cmd S A → Cmd S B → Cmd S B
  m >> n = m >>= λ _. n

  abbrev pub get : Cmd S S
  get s = ok s s

  abbrev pub modify : (S → S) → Cmd S (Unit {0})
  modify f s = ok tt (f s)

pub and_then_assoc :
    {S A B C : Type 0} (r : Run S A) (k : A → Cmd S B) (l : B → Cmd S C)
    → and_then (and_then r k) l ≡ and_then r (λ a s. and_then (k a s) l)
and_then_assoc (ok a s) k l = refl
and_then_assoc fault k l = refl
and_then_assoc deadlock k l = refl
and_then_assoc exited k l = refl
and_then_assoc out_of_fuel k l = refl

-- Two continuations that agree.
pub and_then-same :
    {S A B : Type 0} (r : Run S A) (k l : A → Cmd S B)
    → ((a : A) (s : S) → k a s ≡ l a s)
    → and_then r k ≡ and_then r l
and_then-same (ok a s) k l same = same a s
and_then-same fault k l same = refl
and_then-same deadlock k l same = refl
and_then-same exited k l same = refl
and_then-same out_of_fuel k l same = refl
