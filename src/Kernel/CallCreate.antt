-- ===== src/Kernel/CallCreate.antt =====
-- Call 1 of phase2/exceptions.c, from sysCallHandler on.
use kaya_os.Base.{
  ℕ, ◌≡◌, refl, ap, false, true, List, [], ◌∷◌, arith, ◌==◌, ◌∈◌, ◌∉◌, ProcState, Exit, load_state,
  Returns, returns, Leaves, leaves, Returns-Leaves,
}
use Prim.Native.Nat.{bit_and}
use kaya_os.Base.Word.{add32, minus_one}
use kaya_os.Pcb.{null}
use kaya_os.Pcb.FreeList.{IsFree, alloc_pcb-nil}
use kaya_os.Pcb.Children.{HasChildren}
use kaya_os.Asl.Blocking.{Unblocked}
use kaya_os.Kernel.{Kernel, set_reg, copy_state, load_processor}
use kaya_os.Kernel.Nucleus.{Jobs, IsNucleus, same-IsNucleus}
use kaya_os.Kernel.Birth.{newborn, sys_create-Created}
use kaya_os.Kernel.Syscalls.{syscall_old_area, a0, a1, v0, sys_create}
use kaya_os.Kernel.Exceptions.{kuon, route, sys_call_handler}
use kaya_os.Kernel.Calls.{behind_call, advanced, return_to_caller, handler-routes}

-- The block `q` is none of a process that the nucleus or the running process knows.
abbrev pub IsUnused : Kernel → Jobs → List ℕ → ℕ → Type 0
IsUnused s j cs q = (q ∉ (s.current ∷ cs)) × (q ∉ j.ready) × Unblocked j.queues q

-- The answer of a call, in v0 of the caller, who goes on behind the call.
abbrev pub Answers : Kernel → ℕ → Exit → Type 0
Answers s v e = e ≡ load_state (set_reg (behind_call (s.area syscall_old_area)) v0 v)

-- What call 1 comes to with the free blocks `fs`.
abbrev pub Creates : Kernel → Jobs → List ℕ → List ℕ → Exit → Kernel → Type 0
Creates s j cs [] e g =
    Answers s minus_one e × IsNucleus g j × (g.asl ≡ s.asl) × (g.process_count ≡ s.process_count)
Creates s j cs (p ∷ fs) e g =
    Answers s 0 e
    × IsNucleus g (newborn p j)
    × HasChildren g.asl.pcbs s.current (p ∷ cs)
    × (g.process_count ≡ add32 s.process_count 1)
    × ((old : ProcState) × ((g.asl.pcbs.cell p).state
          ≡ copy_state ((advanced s).area ((s.area syscall_old_area).reg a1)) old))

-- Without a free block nothing is made.
sys_create-none :
    (s : Kernel) (state : ProcState)
    → IsFree s.asl.pcbs []
    → Returns
        (λ _ g. g ≡ record s {
          area =
              kaya_os.Kernel.update s.area syscall_old_area
                (set_reg (s.area syscall_old_area) v0 minus_one);
        })
        (sys_create state s)
unfolding sys_create
sys_create-none s state is = rw (alloc_pcb-nil is) (returns refl)

module _ {s : Kernel} {j : Jobs} {cs : List ℕ} (n : IsNucleus s j)
    (hc : HasChildren s.asl.pcbs s.current cs)
    (m : (bit_and (s.area syscall_old_area).status kuon == 0) ≡ true)
    (at : ((s.area syscall_old_area).reg a1 == null) ≡ false)
    (call : (s.area syscall_old_area).reg a0 ≡ 1) where
  -- A call 1 in kernel mode, with free blocks that no process uses. Without one the caller gets -1,
  -- and the blocks, the queues and the counts stay as they are. Otherwise the process count goes up
  -- by one, the first free block becomes the first child of the caller and is ready behind the
  -- others, with a copy of the state that a1 points to, and the caller gets 0. The caller goes on
  -- behind the call.
  pub create_call-Creates :
      (fs : List ℕ)
      → IsFree s.asl.pcbs fs
      → ((q : ℕ) → q ∈ fs → IsUnused s j cs q)
      → Leaves (Creates s j cs fs) (sys_call_handler s)
  unfolding route load_processor
  create_call-Creates [] is un = rw (handler-routes s 1 call refl m) (
      Returns-Leaves {k = λ _. return_to_caller}
        (sys_create-none (advanced s) (behind_call (s.area syscall_old_area)) is)
        λ _ g e. rw e (leaves (refl, same-IsNucleus _ refl refl refl refl n, refl, refl)))
  create_call-Creates (p ∷ fs) is un =
      let new = un p (ground arith) in
      rw (handler-routes s 1 call refl m) (
        Returns-Leaves {k = λ _. return_to_caller}
          (sys_create-Created {s = advanced s} (behind_call (s.area syscall_old_area))
            (same-IsNucleus (advanced s) refl refl refl refl n) is hc new.0 new.1 new.2 at)
          λ _ g c. leaves (ap load_state c.answer, c.nucleus, c.children, c.total, c.begins))
