-- ===== src/Kernel/PassUp.antt =====
-- pullUpAndDie of phase2/exceptions.c for a process with a handler, and what it makes of a call of
-- the nucleus in user mode.
use kaya_os.Base.{
  ℕ, ◌≡◌, refl, true, false, ◌&&◌, leb, arith, ◌==◌, if◌then◌else◌, ProcState, Exit, load_state, ok,
  Leaves, leaves, Leaves-bind,
}
use Prim.Native.Nat.{bit_and}
use kaya_os.Pcb.{null, old_state, new_state}
use kaya_os.Pcb.Access.{IsPcb, load-ok}
use kaya_os.Kernel.{Kernel, update, copy_state, get_area, set_area, load_processor}
use kaya_os.Kernel.Syscalls.{syscall_old_area, a0}
use kaya_os.Kernel.Exceptions.{
  kuon, ri_cause, progtrap, systrap, pgmtrap_old_area, tlbmgmt_old_area, old_area_of, check_mode,
  pull_up_and_die, sys_call_handler,
}

-- Where the hardware leaves the state of an exception of the type 0, 1 or 2.
abbrev pub area_of : ℕ → ℕ
area_of type =
    if type == 0 then tlbmgmt_old_area else if type == 1 then pgmtrap_old_area else syscall_old_area

-- The areas that the running process has named for the exceptions of a type.
abbrev pub old_of : Kernel → ℕ → ℕ
old_of s type = (s.asl.pcbs.cell s.current).states type old_state

abbrev pub new_of : Kernel → ℕ → ℕ
new_of s type = (s.asl.pcbs.cell s.current).states type new_state

-- The exception is passed up: its state is in the old area of the process, all else is as in `s`,
-- and the state in its new area is loaded.
pub record PassedUp (s : Kernel) (type : ℕ) (e : Exit) (g : Kernel) : Type 0 where
  pub handler : e ≡ load_state (s.area (new_of s type))
  pub memory : g ≡ record s {
    area =
        update s.area (old_of s type) (copy_state (s.area (area_of type)) (s.area (old_of s type)));
  }

get_area-ok : (p : ℕ) (s : Kernel) → (p == null) ≡ false → get_area p s ≡ ok (s.area p) s
get_area-ok p s o = rw o refl

set_area-ok :
    (p : ℕ) (st : ProcState) (s : Kernel)
    → (p == null) ≡ false
    → set_area p st s ≡ ok tt (record s { area = update s.area p st })
set_area-ok p st s o = rw o refl

module _ (s : Kernel) (type : ℕ) (kind : leb type 2 ≡ true) (v : IsPcb s.current)
    (o : (old_of s type == null) ≡ false) (w : (new_of s type == null) ≡ false)
    (apart : (new_of s type == old_of s type) ≡ false) where
  location : (area_of type == null) ≡ false
  location = ground arith

  location-ok : old_area_of type s ≡ ok (area_of type) s
  unfolding old_area_of
  location-ok = ground arith

  -- An exception of a process that has named areas for its type is passed up to it.
  pub pull_up_and_die-PassedUp : Leaves (PassedUp s type) (pull_up_and_die type s)
  unfolding pull_up_and_die load_processor
  pull_up_and_die-PassedUp =
      let target = copy_state (s.area (area_of type)) (s.area (old_of s type)) in
      rw
        (
          load-ok s.current s.asl.pcbs v,
          get_area-ok (old_of s type) s o,
          w,
          location-ok,
          load-ok s.current s.asl.pcbs v,
          get_area-ok (area_of type) s location,
          get_area-ok (old_of s type) s o,
          set_area-ok (old_of s type) target s o,
          get_area-ok (new_of s type) (record s { area = update s.area (old_of s type) target }) w,
          apart,
        )
        (leaves (record { handler = refl; memory = refl }))

-- The state in which a program trap comes of a call in user mode.
abbrev pub trapped : Kernel → Kernel
trapped s = record s {
  area =
      update s.area pgmtrap_old_area
        (record (copy_state (s.area syscall_old_area) (s.area pgmtrap_old_area)) {
          cause = ri_cause;
        });
}

-- A call 1 .. 8 in user mode is not carried out: it becomes a program trap for a reserved
-- instruction, which is passed up to the process if it has named areas for it.
pub user_call-PassedUp :
    (s : Kernel)
    → (leb 1 ((s.area syscall_old_area).reg a0) && leb ((s.area syscall_old_area).reg a0) 8) ≡ true
    → (bit_and (s.area syscall_old_area).status kuon == 0) ≡ false
    → IsPcb s.current
    → (old_of s progtrap == null) ≡ false
    → (new_of s progtrap == null) ≡ false
    → (new_of s progtrap == old_of s progtrap) ≡ false
    → Leaves (PassedUp (trapped s) progtrap) (sys_call_handler s)
unfolding sys_call_handler check_mode
user_call-PassedUp s r m v o w apart =
    rw (r, m) (Leaves-bind _ (pull_up_and_die-PassedUp (trapped s) progtrap refl v o w apart))

-- A call with any other number is passed up as such, whatever the mode.
pub other_call-PassedUp :
    (s : Kernel)
    → (leb 1 ((s.area syscall_old_area).reg a0) && leb ((s.area syscall_old_area).reg a0) 8) ≡ false
    → IsPcb s.current
    → (old_of s systrap == null) ≡ false
    → (new_of s systrap == null) ≡ false
    → (new_of s systrap == old_of s systrap) ≡ false
    → Leaves (PassedUp s systrap) (sys_call_handler s)
unfolding sys_call_handler
other_call-PassedUp s r v o w apart =
    rw r (Leaves-bind _ (pull_up_and_die-PassedUp s systrap refl v o w apart))
