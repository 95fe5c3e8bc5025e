-- ===== src/Kernel/Death.antt =====
-- SYS2 of phase2/exceptions.c, from sysCallHandler on, for a process without children.
use kaya_os.Base.{
  ℕ, suc, ◌<◌, ◌^◌, ◌≡◌, refl, sym, ap, ◌∙◌, true, false, List, [], ◌∷◌, arith, ◌==◌, ==-refl, ◌∈◌,
  ◌∉◌, ◌⊎◌, inl, inr, ok, if◌then◌else◌, ◌>>=◌, pure, Exit, Returns, Returns-mono, Returns-bind,
  returns, Leaves, Leaves-mono, Leaves-bind, Returns-Leaves,
}
use kaya_os.Base.Word.{sub32}
use mathlib.Core.Path.{subst}
use kaya_os.Pcb.{update, null, Pcb, Pcbs, put, empty_child, out_child, free_pcb}
use kaya_os.Pcb.Access.{IsPcb, load-ok}
use kaya_os.Pcb.Aim.{Kept, Kept-trans}
use kaya_os.Pcb.Links.{with_next}
use kaya_os.Pcb.Queue.{IsProcQ}
use kaya_os.Pcb.Frame.{IsProcQ-frame}
use kaya_os.Pcb.Out.{out_proc_q-not_mem}
use kaya_os.Pcb.Children.{child_of, parent_of, HasChildren, tree, SameButTree}
use kaya_os.Pcb.OutChild.{out_child-mem, out_child-none}
use kaya_os.Asl.{Asl}
use kaya_os.Asl.Blocking.{IsBlocking, Unblocked}
use kaya_os.Kernel.Block.{Lost, next_up-Lost}
use kaya_os.Asl.Frame.{IsBlocking-frame}
use kaya_os.Kernel.{Kernel, on_pcb}
use kaya_os.Kernel.Access.{with_pcbs, on_pcb-Returns}
use kaya_os.Kernel.Scheduler.{scheduler}
use kaya_os.Kernel.Syscalls.{
  bury, execute_order_66, kill_children, sys_terminate, syscall_old_area, a0,
}
use Prim.Native.Nat.{bit_and}
use kaya_os.Kernel.Exceptions.{kuon, route, sys_call_handler}
use kaya_os.Kernel.Calls.{advanced, return_to_caller, handler-routes}
use kaya_os.Kernel.Nucleus.{
  Jobs, IsNucleus, same-IsNucleus, IsAlone, leaving, next_up, scheduler-Scheduled,
}

-- The process `c` has no parent, or is on the list of its children.
abbrev pub HasPlace : Pcbs → ℕ → Type 0
HasPlace h c =
    (parent_of h c ≡ null) ⊎ ((prnt : ℕ) × (cs : List ℕ) × HasChildren h prnt cs × (c ∈ cs))

-- A change of the tree keeps the queue links and the semaphores.
pub tree-Kept : (h g : Pcbs) → SameButTree h g → (q : ℕ) → Kept g h q
unfolding tree
tree-Kept h g (same, f) q = ((ap Pcb.next (same q), ap Pcb.prev (same q)), ap Pcb.sem_add (same q))

leaves_tree :
    (h : Pcbs) (c : ℕ) → IsPcb c → HasPlace h c → Returns (λ _ g. SameButTree h g) (out_child c h)
leaves_tree h c v (inl e) =
    subst (Returns (λ _ g. SameButTree h g)) (sym (out_child-none {h = h} c (inr (v, e))))
      (returns ((λ a. refl), refl))
leaves_tree h c v (inr (prnt, cs, hc, i)) = Returns-mono (out_child-mem c hc i) λ r g o. o.others

abbrev freed : Pcbs → ℕ → Pcbs
freed h p = record (with_next h p h.free) { free = p }

free_pcb-ok : (p : ℕ) (h : Pcbs) → IsPcb p → free_pcb p h ≡ ok tt (freed h p)
unfolding free_pcb update put
free_pcb-ok p h v = ground arith

freed-Kept : (h : Pcbs) (p q : ℕ) → (q == p) ≡ false → Kept (freed h p) h q
unfolding put
freed-Kept h p q ne = ground arith

-- The process `c` is off the tree and on the free list.
record Buried (s : Kernel) (c : ℕ) (g : Kernel) : Type 0 where
  globals : (g.ready ≡ s.ready) × (g.current ≡ s.current) × (g.word ≡ s.word)
  list : g.asl ≡ record s.asl { pcbs = g.asl.pcbs }
  kept : (q : ℕ) → (q == c) ≡ false → Kept g.asl.pcbs s.asl.pcbs q
  totals : (g.process_count ≡ sub32 s.process_count 1) × (g.soft_block_count ≡ s.soft_block_count)
  first : g.asl.pcbs.free ≡ c

no_children-kill :
    (s : Kernel) (c k : ℕ)
    → IsPcb c
    → child_of s.asl.pcbs c ≡ null
    → Returns (λ _ g. g ≡ s) (kill_children (suc k) c s)
unfolding execute_order_66 kill_children empty_child
no_children-kill s c k v none =
    let e : (child_of s.asl.pcbs c == null) ≡ true = ground (arith, none) in
    rw (load-ok c s.asl.pcbs v, e) (returns refl)

module _ {s : Kernel} {j : Jobs} (n : IsNucleus s j) (al : IsAlone j) (v : IsPcb s.current)
    (free : (s.asl.pcbs.cell s.current).sem_add ≡ null) (at : HasPlace s.asl.pcbs s.current) where
  out : s.current ∉ j.ready
  out = rw n.runs al.0

  -- the first statement of the end
  off_tree :
      Returns
        (λ _ g. (h : Pcbs) × (g ≡ with_pcbs s h) × SameButTree s.asl.pcbs h)
        ((if s.current == s.current
            then (on_pcb (out_child s.current) >>= λ _. pure tt)
            else pure tt)
          s)
  off_tree = rw (==-refl s.current) (
      Returns-bind {k = λ _. pure tt}
        (on_pcb-Returns (out_child s.current) s (leaves_tree s.asl.pcbs s.current v at))
        λ r g p. returns p)

  bury-Buried : Returns (λ _. Buried s s.current) (bury s.current s)
  unfolding bury
  bury-Buried = Returns-bind off_tree λ r g (h, e, same).
      let kept = tree-Kept s.asl.pcbs h same in
      let unblocked : ((h.cell s.current).sem_add == null) ≡ true =
        ground (arith, (kept s.current).1, free) in
      let q = IsProcQ-frame h s.asl.pcbs s.ready j.ready (λ x _. (kept x).0) n.queue in
      rw
        (
          e,
          load-ok s.current h v,
          unblocked,
          out_proc_q-not_mem s.current q out,
          free_pcb-ok s.current h v,
        )
        (returns (record {
          globals = (refl, refl, refl);
          list = refl;
          kept = λ x ne.
              Kept-trans (freed h s.current) h s.asl.pcbs x (freed-Kept h s.current x ne) (kept x);
          totals = (refl, refl);
          first = refl;
        }))

  -- Without children there is nothing else to kill.
  alone-Buried :
      child_of s.asl.pcbs s.current ≡ null
      → (k : ℕ) → Returns (λ _. Buried s s.current) (execute_order_66 (suc (suc k)) s.current s)
  unfolding execute_order_66
  alone-Buried none k =
      Returns-bind {k = λ _. bury s.current} (no_children-kill s s.current k v none)
        λ r g e. rw e bury-Buried

-- What the nucleus stands for then.
Buried-IsNucleus :
    {s : Kernel} {j : Jobs} (g : Kernel)
    → IsNucleus s j
    → IsAlone j
    → Buried s j.current g
    → IsNucleus g j
Buried-IsNucleus {s} {j} g n al b =
    let unblocked : (q : ℕ) → q ∈ (j.current ∷ []) → Unblocked j.queues q =
      λ q i. let same : q ≡ j.current = ground arith in rw same al.1 in
    let h = g.asl.pcbs in
    record {
      counts = b.globals.2 ∙ n.counts;
      blocking =
          subst (λ (a : Asl). IsBlocking a j.queues) (sym b.list)
            (IsBlocking-frame (j.current ∷ []) h n.blocking unblocked
              (λ q o. b.kept q (ground arith)));
      queue =
          subst (λ (t : ℕ). IsProcQ h t j.ready) (sym b.globals.0)
            (IsProcQ-frame h s.asl.pcbs s.ready j.ready (λ q i. (b.kept q (ground (arith, al.0))).0)
              n.queue);
      apart = n.apart;
      runs = b.globals.1 ∙ n.runs;
    }

-- The running process has ended, and the scheduler has chosen the next one.
pub record Died (s : Kernel) (j : Jobs) (e : Exit) (g : Kernel) : Type 0 where
  outcome : e ≡ leaving g j.ready
  nucleus : IsNucleus g (next_up j)
  lost : Lost s.current (next_up j)
  total : g.process_count ≡ sub32 s.process_count 1
  first : g.asl.pcbs.free ≡ s.current

-- SYS2 ends the process within the fuel given.
sys_terminate-Died :
    {s : Kernel} {j : Jobs}
    → IsNucleus s j
    → IsAlone j
    → IsPcb s.current
    → (s.asl.pcbs.cell s.current).sem_add ≡ null
    → child_of s.asl.pcbs s.current ≡ null
    → HasPlace s.asl.pcbs s.current
    → sub32 s.process_count 1 < 2 ^ 31
    → s.soft_block_count < 2 ^ 31
    → Leaves (Died s j) (sys_terminate s)
unfolding sys_terminate
sys_terminate-Died {s} {j} n al v free none at small small' =
    Returns-Leaves {k = λ _. scheduler} (alone-Buried n al v free at none 40) λ u b d.
      let d' = subst (λ (c : ℕ). Buried s c b) n.runs d in
      let v' : IsPcb j.current = rw (← n.runs) v in
      Leaves-mono
        (scheduler-Scheduled (Buried-IsNucleus b n al d') (inr (rw d.globals.1 v))
          (rw d.totals.0 small, rw d.totals.1 small'))
        λ e g w. record {
          outcome = w.outcome;
          nucleus = w.nucleus;
          lost = subst (λ (c : ℕ). Lost c (next_up j)) (sym n.runs) (next_up-Lost j v' al);
          total = w.totals.0 ∙ d.totals.0;
          first = w.frees ∙ d.first;
        }

-- A call 2 in kernel mode of a process without children, which has no parent or is on the list of
-- its children: the handler leaves within the fuel given, the process count goes down by one and
-- the block of the process is the first free one. The scheduler chooses the next process by the
-- ready queue that was; the one that ended neither runs nor is ready or blocked, and all others stay
-- in their queues. The process that runs is on no queue, its semaphore is NULL, and the counts
-- afterwards are below 2^31.
pub terminate_call-Died :
    {s : Kernel} {j : Jobs}
    → IsNucleus s j
    → IsAlone j
    → IsPcb s.current
    → (s.asl.pcbs.cell s.current).sem_add ≡ null
    → child_of s.asl.pcbs s.current ≡ null
    → HasPlace s.asl.pcbs s.current
    → sub32 s.process_count 1 < 2 ^ 31
    → s.soft_block_count < 2 ^ 31
    → (bit_and (s.area syscall_old_area).status kuon == 0) ≡ true
    → (s.area syscall_old_area).reg a0 ≡ 2
    → Leaves (Died s j) (sys_call_handler s)
unfolding route
terminate_call-Died {s} {j} n al v free none at small small' m c =
    rw (handler-routes s 2 c refl m) (
      Leaves-bind (λ _. return_to_caller)
        (Leaves-mono
          (sys_terminate-Died {s = advanced s} (same-IsNucleus (advanced s) refl refl refl refl n)
            al v free none at small small')
          λ e g d. record {
            outcome = d.outcome;
            nucleus = d.nucleus;
            lost = d.lost;
            total = d.total;
            first = d.first;
          }))
