-- ===== src/Kernel/Calls.antt =====
-- sysCallHandler of phase2/exceptions.c as a whole: what a call comes to for the caller.
use kaya_os.Base.{
  ℕ, ◌≡◌, refl, ap, true, false, Bool, ◌&&◌, leb, ◌==◌, ProcState, Exit, load_state, Cmd, Run,
  and_then, ◌>>=◌, ◌>>◌, Leaves, leaves, Returns-Leaves, Leaves-bind,
}
use Prim.Native.Nat.{bit_and}
use kaya_os.Base.Word.{add32, sub32, is_neg}
use kaya_os.Pcb.Access.{IsPcb}
use kaya_os.Asl.Blocking.{IsAddress}
use kaya_os.Kernel.{Kernel, update, get_area, load_processor}
use kaya_os.Kernel.Nucleus.{Jobs, IsNucleus, same-IsNucleus, IsAlone, IsSmall}
use kaya_os.Kernel.Saved.{Switched}
use kaya_os.Kernel.Signal.{SameStates, signal, sys_signal-IsNucleus}
use kaya_os.Kernel.Block.{counted, block, Waits, sys_wait-Waits}
use kaya_os.Kernel.Syscalls.{syscall_old_area, a0, a1, sys_wait}
use kaya_os.Kernel.Exceptions.{kuon, route, check_mode, sys_call_handler}

-- The state of the caller behind the call.
abbrev pub behind_call : ProcState → ProcState
behind_call st = record st { pc = add32 st.pc 4 }

-- The end of the handler.
abbrev pub return_to_caller : Cmd Kernel (Unit {0})
return_to_caller = do next ← get_area syscall_old_area; load_processor next

-- The state when the call is carried out.
abbrev pub advanced : Kernel → Kernel
advanced s = record s {
  area = update s.area syscall_old_area (behind_call (s.area syscall_old_area));
}

-- A call with a number of 1 .. 8 in kernel mode.
pub handler-routes :
    (s : Kernel) (call : ℕ)
    → (s.area syscall_old_area).reg a0 ≡ call
    → (leb 1 call && leb call 8) ≡ true
    → (bit_and (s.area syscall_old_area).status kuon == 0) ≡ true
    → sys_call_handler s
      ≡ (route call (behind_call (s.area syscall_old_area)) >> return_to_caller) (advanced s)
unfolding sys_call_handler check_mode
handler-routes s call c r m =
    let r' : (leb 1 ((s.area syscall_old_area).reg a0) && leb ((s.area syscall_old_area).reg a0) 8)
        ≡ true =
      rw c r in
    rw (r', m, c) refl

abbrev next_state : Kernel → ProcState
next_state s = behind_call (s.area syscall_old_area)

-- The caller goes on behind the call, and the nucleus stands for `j`.
pub record GoesOn (s : Kernel) (j : Jobs) (e : Exit) (g : Kernel) : Type 0 where
  pub resumed : e ≡ load_state (next_state s)
  pub nucleus : IsNucleus g j
  pub states : SameStates s g

return-GoesOn :
    (s g : Kernel) (j : Jobs)
    → IsNucleus g j
    → SameStates s g
    → g.area ≡ (advanced s).area
    → Leaves (GoesOn s j) (return_to_caller g)
unfolding load_processor
return-GoesOn s g j n same ar =
    let e : load_state (g.area syscall_old_area) ≡ load_state (next_state s) =
      ap (λ (a : ℕ → ProcState). load_state (a syscall_old_area)) ar in
    leaves (record { resumed = e; nucleus = n; states = same })

module _ {s : Kernel} {j : Jobs} (n : IsNucleus s j)
    (m : (bit_and (s.area syscall_old_area).status kuon == 0) ≡ true)
    (ka : IsAddress ((s.area syscall_old_area).reg a1)) where
  abbrev key : ℕ
  key = (s.area syscall_old_area).reg a1

  n-advanced : IsNucleus (advanced s) j
  n-advanced = same-IsNucleus (advanced s) refl refl refl refl n

  -- A call 3 in kernel mode performs the V operation on the semaphore in a1: the count goes up, and
  -- if it was negative the process that has waited longest goes behind the ready ones. The caller
  -- goes on behind the call, and no saved state changes.
  pub signal_call-GoesOn :
      (s.area syscall_old_area).reg a0 ≡ 3 → Leaves (GoesOn s (signal key j)) (sys_call_handler s)
  unfolding route
  signal_call-GoesOn c = rw (handler-routes s 3 c refl m) (
      Returns-Leaves {k = λ _. return_to_caller} (sys_signal-IsNucleus (next_state s) n-advanced ka)
        λ u g (n', same, soft, ar, pc). return-GoesOn s g (signal key j) n' same ar)

  -- What a call 4 comes to, by whether the count becomes negative.
  abbrev pub CallWaits : Bool → Run Kernel (Unit {0}) → Type 0
  CallWaits true r =
      Leaves
        (Switched s.asl.pcbs s.current (next_state s) (block key (counted key j)) s.process_count
          s.soft_block_count)
        r
  CallWaits false r = Leaves (GoesOn s (counted key j)) r

  wait_end :
      (b : Bool) (r : Run Kernel (Unit {0}))
      → Waits b (advanced s) (next_state s) j key s.soft_block_count r
      → CallWaits b (and_then r (λ _. return_to_caller))
  wait_end true r w = Leaves-bind (λ _. return_to_caller) w
  wait_end false r w =
      Returns-Leaves {k = λ _. return_to_caller} w
        λ u g (n', same, ar, pc, sc). return-GoesOn s g (counted key j) n' same ar

  -- A call 4 in kernel mode performs the P operation on the semaphore in a1: if its count becomes
  -- negative the caller waits behind the others, to go on behind the call, and the scheduler
  -- chooses; otherwise the caller goes on.
  pub wait_call-CallWaits :
      IsAlone j
      → IsPcb j.current
      → IsSmall s
      → (s.area syscall_old_area).reg a0 ≡ 4
      → CallWaits (is_neg (sub32 (j.count key) 1)) (sys_call_handler s)
  unfolding route
  wait_call-CallWaits al v small c = rw (handler-routes s 4 c refl m) (
      wait_end (is_neg (sub32 (j.count key) 1)) (sys_wait (next_state s) (advanced s))
        (sys_wait-Waits (next_state s) n-advanced al v ka small))
