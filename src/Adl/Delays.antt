-- ===== src/Adl/Delays.antt =====
-- What the functions of adl.c do after initADL.
use kaya_os.Base.{ℕ, zero, suc, ◌+◌, ◌≡◌, refl, Bool, false, arith, ok}
use kaya_os.Base.Word.{minus_one}
use kaya_os.Pcb.{null, max_proc}
use kaya_os.Adl.{
  Adl, free_delayd, init_loop, init_adl, alloc_delayd, insert_delay, remove_delay, head_delay_time,
}

-- the state with both lists empty
abbrev pub emptied : Adl → Adl
emptied a = record a { free = null; active = null }

init_loop-emptied : (k i : ℕ) (a : Adl) → init_loop k i (emptied a) ≡ ok tt (emptied a)
unfolding init_loop free_delayd
init_loop-emptied zero i a = refl
init_loop-emptied (suc k) i a = init_loop-emptied k (i + 1) a

-- initADL leaves the list of free nodes as empty as the list of delayed processes.
pub init_adl-emptied : (a : Adl) → init_adl a ≡ ok tt (emptied a)
unfolding init_adl
init_adl-emptied a = init_loop-emptied (max_proc + 1) 0 a

-- The states that calls of insertDelay and removeDelay lead to from the end of initADL.
pub data Reached : Adl → Type 0 where
  start : (a : Adl) {g : Adl} → init_adl a ≡ ok tt g → Reached g
  insert :
      (g : Adl) {g' : Adl} (wake id : ℕ) (r : Bool)
      → Reached g
      → insert_delay wake id g ≡ ok r g'
      → Reached g'
  remove : (g : Adl) {g' : Adl} (r : ℕ) → Reached g → remove_delay g ≡ ok r g' → Reached g'

abbrev IsEmpty : Adl → Type 0
IsEmpty a = (a.free ≡ null) × (a.active ≡ null)

insert_delay-empty : (wake id : ℕ) (a : Adl) → IsEmpty a → insert_delay wake id a ≡ ok false a
unfolding insert_delay alloc_delayd
insert_delay-empty wake id a (f, e) = ground arith

remove_delay-empty : (a : Adl) → IsEmpty a → remove_delay a ≡ ok minus_one a
unfolding remove_delay
remove_delay-empty a (f, e) = ground arith

Reached-IsEmpty : {g : Adl} → Reached g → IsEmpty g
Reached-IsEmpty (start a run) = ground (arith, run, init_adl-emptied a)
Reached-IsEmpty (insert g wake id r before run) =
    let empty = Reached-IsEmpty before in ground (arith, run, insert_delay-empty wake id g empty)
Reached-IsEmpty (remove g r before run) =
    let empty = Reached-IsEmpty before in ground (arith, run, remove_delay-empty g empty)

-- After initADL no call of insertDelay ever finds a free node: it returns FALSE and changes nothing.
pub insert_delay-never : {g : Adl} (wake id : ℕ) → Reached g → insert_delay wake id g ≡ ok false g
insert_delay-never {g} wake id r = insert_delay-empty wake id g (Reached-IsEmpty r)

-- After initADL removeDelay always returns -1, and changes nothing.
pub remove_delay-never : {g : Adl} → Reached g → remove_delay g ≡ ok minus_one g
remove_delay-never {g} r = remove_delay-empty g (Reached-IsEmpty r)

-- After initADL headDelayTime always returns -1, and changes nothing.
pub head_delay_time-never : {g : Adl} → Reached g → head_delay_time g ≡ ok minus_one g
unfolding head_delay_time
head_delay_time-never {g} r = let (f, e) = Reached-IsEmpty r in ground arith
