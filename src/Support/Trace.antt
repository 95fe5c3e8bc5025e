-- ===== src/Support/Trace.antt =====
-- What the trace of a process shows: who holds a semaphore, whether interrupts are off, and which
-- device commands were given under that protection.
use kaya_os.Base.{
  ℕ, zero, suc, ◌%◌, ◌≡◌, refl, Bool, true, false, ◌==◌, if◌then◌else◌, List, [], ◌∷◌, arith,
}
use Prim.Native.Nat.{bit_and, bit_or, bit_and-bitwise}
use kaya_os.Support.{
  Memory, World, Sem, swap_sem, master_sem, mutex, private_sem, Event, passeren, verhogen,
  set_status, command, transmit,
}

abbrev pub same_sem : Sem → Sem → Bool
same_sem swap_sem swap_sem = true
same_sem master_sem master_sem = true
same_sem (mutex i) (mutex j) = i == j
same_sem (private_sem i) (private_sem j) = i == j
same_sem _ _ = false

abbrev pub holds : Sem → Event → Bool → Bool
holds s (passeren r) b = if same_sem s r then true else b
holds s (verhogen r) b = if same_sem s r then false else b
holds s e b = b

-- The last P or V of the semaphore was a P.
abbrev pub held : Sem → List Event → Bool
held s [] = false
held s (e ∷ t) = holds s e (held s t)

-- The last write of the status register put the bit for current interrupts off.
abbrev pub masked : List Event → Bool
masked [] = false
masked (set_status v ∷ t) = v % 2 == 0
masked (e ∷ t) = masked t

-- A command to the device, and a command to its transmitter.
abbrev pub is_command_of : ℕ → Event → Bool
is_command_of dev (command d v x) = d == dev
is_command_of dev e = false

abbrev pub is_transmit_of : ℕ → Event → Bool
is_transmit_of dev (transmit d v) = d == dev
is_transmit_of dev e = false

-- Each event that passes the test happens while the semaphore is held and interrupts are off.
abbrev pub IsGuarded : (Event → Bool) → Sem → List Event → Type 0
IsGuarded mine s [] = Unit
IsGuarded mine s (e ∷ t) =
    (mine e ≡ true → (held s t ≡ true) × (masked t ≡ true)) × IsGuarded mine s t

-- What went out with commands to the device: the data of a printer, the characters of a terminal's
-- transmitter, the last one first.
abbrev pub printed : ℕ → List Event → List ℕ
printed dev [] = []
printed dev (command d v x ∷ t) = if d == dev then x ∷ printed dev t else printed dev t
printed dev (e ∷ t) = printed dev t

abbrev pub sent : ℕ → List Event → List ℕ
sent dev [] = []
sent dev (transmit d v ∷ t) = if d == dev then v ∷ sent dev t else sent dev t
sent dev (e ∷ t) = sent dev t

-- The status register with the bit off, and with it on.
abbrev pub off : ℕ → ℕ
off v = bit_and v 0xFFFFFFFE

abbrev pub on : ℕ → ℕ
on v = bit_or v 1

pub off-even : (v : ℕ) → (off v % 2 == 0) ≡ true
off-even zero = refl
off-even (suc v) = ground (arith, bit_and-bitwise (suc v) 0xFFFFFFFE)

-- No other process writes the characters or the states of this one while it waits.
pub record IsPrivate (w : World) : Type 0 where
  pub bytes : (t : List Event) (m : Memory) (a : ℕ) → (w.others t m).byte a ≡ m.byte a
  pub users : (t : List Event) (m : Memory) (id : ℕ) → (w.others t m).user id ≡ m.user id
