-- ===== src/Base/Commands.antt =====
-- Commands over a state: what a C function does to the memory that it can reach. A run returns,
-- leaves for good (HALT, PANIC, WAIT, LDST of a processor state, or the end of the process), faults at a pointer that
-- names no object, or uses up the fuel of a loop.
use Prim.Native.Nat.{ℕ}

-- `state_t`: the processor state, its 31 registers by index.
pub record ProcState : Type 0 where
  pub asid : ℕ
  pub cause : ℕ
  pub status : ℕ
  pub pc : ℕ
  pub reg : ℕ → ℕ

pub data Exit : Type 0 where
  halt panic wait killed : Exit
  load_state : ProcState → Exit

pub data Run (S A : Type 0) : Type 0 where
  ok : A → S → Run S A
  exit : Exit → S → Run S A
  fault out_of_fuel : Run S A

abbrev pub Cmd : Type 0 → Type 0 → Type 0
Cmd S A = S → Run S A

abbrev pub pure : {S A : Type 0} → A → Cmd S A
pure = ok

module _ {S A B : Type 0} where
  abbrev pub and_then : Run S A → (A → Cmd S B) → Run S B
  and_then (ok a s) k = k a s
  and_then (exit e s) k = exit e s
  and_then fault k = fault
  and_then out_of_fuel k = out_of_fuel

  infixl 5 ◌>>=◌ ◌>>◌
  abbrev pub ◌>>=◌ : Cmd S A → (A → Cmd S B) → Cmd S B
  m >>= k = λ s. and_then (m s) k

  abbrev pub ◌>>◌ : Cmd S A → Cmd S B → Cmd S B
  m >> n = m >>= λ _. n

-- The state, or a part of it; an update of it.
abbrev pub gets : {S A : Type 0} → (S → A) → Cmd S A
gets f s = ok (f s) s

abbrev pub modify : {S : Type 0} → (S → S) → Cmd S (Unit {0})
modify f s = ok tt (f s)

-- A command on a part of the state, as a command on the whole of it.
module _ {S T : Type 0} (get : S → T) (put : T → S → S) {A : Type 0} where
  abbrev pub lift_run : S → Run T A → Run S A
  lift_run s (ok a t) = ok a (put t s)
  lift_run s (exit e t) = exit e (put t s)
  lift_run s fault = fault
  lift_run s out_of_fuel = out_of_fuel

  abbrev pub lift : Cmd T A → Cmd S A
  lift m s = lift_run s (m (get s))

-- Total correctness of a run that returns: no fault, enough fuel, and a postcondition.
pub data Returns {S A : Type 0} (P : A → S → Type 0) : Run S A → Type 0 where
  returns : {a : A} {s : S} → P a s → Returns P (ok a s)

module _ {S A : Type 0} {P : A → S → Type 0} where
  pub Returns-bind :
      {B : Type 0} {Q : B → S → Type 0} {r : Run S A} {k : A → Cmd S B}
      → Returns P r
      → ((a : A) (s : S) → P a s → Returns Q (k a s))
      → Returns Q (and_then r k)
  Returns-bind (returns p) next = next _ _ p

  -- The same for any statement of the run.
  pub Returns-then :
      {B : Type 0} {r : Run S A} {k : A → Cmd S B} (T : Run S B → Type 0)
      → Returns P r
      → ((a : A) (s : S) → P a s → T (k a s))
      → T (and_then r k)
  Returns-then T (returns p) next = next _ _ p

  pub Returns-mono :
      {Q : A → S → Type 0} {r : Run S A}
      → Returns P r
      → ((a : A) (s : S) → P a s → Q a s)
      → Returns Q r
  Returns-mono (returns p) weaken = returns (weaken _ _ p)

-- Runs that leave for good, with a postcondition.
pub data Leaves {S A : Type 0} (P : Exit → S → Type 0) : Run S A → Type 0 where
  leaves : {e : Exit} {s : S} → P e s → Leaves P (exit e s)

pub Returns-Leaves :
    {S A B : Type 0} {P : A → S → Type 0} {Q : Exit → S → Type 0} {r : Run S A} {k : A → Cmd S B}
    → Returns P r
    → ((a : A) (s : S) → P a s → Leaves Q (k a s))
    → Leaves Q (and_then r k)
Returns-Leaves (returns p) next = next _ _ p

pub Leaves-mono :
    {S A : Type 0} {P Q : Exit → S → Type 0} {r : Run S A}
    → Leaves P r
    → ((e : Exit) (s : S) → P e s → Q e s)
    → Leaves Q r
Leaves-mono (leaves p) weaken = leaves (weaken _ _ p)

-- What follows a run that leaves does not run.
pub Leaves-bind :
    {S A B : Type 0} {P : Exit → S → Type 0} {r : Run S A} (k : A → Cmd S B)
    → Leaves P r
    → Leaves P (and_then r k)
Leaves-bind k (leaves p) = leaves p

-- Two statements of the same run.
pub Returns-both :
    {S A : Type 0} {P Q : A → S → Type 0} {r : Run S A}
    → Returns P r
    → Returns Q r
    → Returns (λ a s. P a s × Q a s) r
Returns-both (returns p) (returns q) = returns (p, q)
