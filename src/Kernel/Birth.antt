-- ===== src/Kernel/Birth.antt =====
-- SYS1 of phase2/exceptions.c: the process that is made.
use kaya_os.Base.{
  ℕ, ◌≡◌, refl, sym, ap, ◌∙◌, false, List, [], ◌∷◌, ◌++◌, arith, ◌==◌, ◌∈◌, ◌∉◌, inl, inr,
  Bool-cases, if◌then◌else◌, Cmd, ◌>>◌, ◌>>=◌, modify, gets, Returns, Returns-bind, returns,
  ProcState, has-append,
}
use kaya_os.Base.Word.{add32, minus_one}
use mathlib.Core.Path.{subst}
use kaya_os.Pcb.{null, Pcb, Pcbs, put, alloc_pcb, insert_child}
use kaya_os.Pcb.Access.{IsPcb-ne_null}
use kaya_os.Pcb.Aim.{Kept, Kept-trans, Relinked-Kept}
use kaya_os.Pcb.Queue.{IsProcQ}
use kaya_os.Pcb.Links.{Relinked, rest}
use kaya_os.Pcb.Frame.{IsProcQ-frame}
use kaya_os.Pcb.FreeList.{IsFree, Allocated, alloc_pcb-cons}
use kaya_os.Pcb.Children.{
  child_of, parent_of, prev_sib_of, next_sib_of, HasChildren, Siblings-frame,
}
use kaya_os.Pcb.Adopt.{insert_child-cons}
use kaya_os.Asl.{Asl}
use kaya_os.Asl.Blocking.{IsBlocking, Unblocked}
use kaya_os.Asl.Frame.{IsBlocking-frame}
use kaya_os.Kernel.{Kernel, on_pcb, make_ready, get_area, save_state, set_reg, copy_state}
use kaya_os.Kernel.Access.{with_pcbs, on_pcb-Returns}
use kaya_os.Kernel.Nucleus.{Jobs, IsNucleus, same-IsNucleus}
use kaya_os.Kernel.Wake.{make_ready-Inserted}
use kaya_os.Kernel.Saved.{saved_pcbs, save_state-ok, saved-hit, saved-IsNucleus}
use kaya_os.Kernel.Death.{tree-Kept}
use kaya_os.Kernel.Syscalls.{syscall_old_area, a1, v0, give, sys_create}

-- sysCreate from its last save on, from the queue on, and from the test of the new block on
abbrev start : ProcState → ℕ → Cmd Kernel (Unit {0})
start state p = do st ← get_area (state.reg a1); save_state st p; give 0

abbrev enlist : ProcState → ℕ → Cmd Kernel (Unit {0})
enlist state p = do make_ready p; start state p

abbrev enrol : ProcState → ℕ → Cmd Kernel (Unit {0})
enrol state p = if p == null then give minus_one else do
  modify (λ s. record s { process_count = add32 s.process_count 1 })
  c ← gets Kernel.current
  on_pcb (insert_child c p)
  enlist state p

-- The new process is ready behind the others.
abbrev pub newborn : ℕ → Jobs → Jobs
newborn p j = record j { ready = j.ready ++ p ∷ [] }

-- What the call makes of the block `p`.
pub record Created (s : Kernel) (j : Jobs) (p : ℕ) (cs : List ℕ) (state : ProcState) (g : Kernel)
    : Type 0 where
  pub nucleus : IsNucleus g (newborn p j)
  pub children : HasChildren g.asl.pcbs s.current (p ∷ cs)
  pub begins :
      (old : ProcState) × ((g.asl.pcbs.cell p).state ≡ copy_state (s.area (state.reg a1)) old)
  pub total : g.process_count ≡ add32 s.process_count 1
  pub answer : g.area syscall_old_area ≡ set_reg (s.area syscall_old_area) v0 0

-- Taking a block off the free list spares the children of another.
spared_children :
    {h g : Pcbs} {prnt p : ℕ} {cs fs : List ℕ} (r : ℕ)
    → HasChildren h prnt cs
    → Allocated h p fs r g
    → p ∉ cs
    → (prnt == p) ≡ false
    → HasChildren g prnt cs
spared_children {h} {g} {prnt} {p} {cs} r hc al out ne =
    let first : child_of g prnt ≡ child_of h prnt = ap Pcb.child (al.outside prnt ne) in
    record {
      parent = hc.parent;
      distinct = hc.distinct;
      siblings = rw first (
          Siblings-frame g h prnt null (child_of h prnt) cs
            (λ q i _.
              let e = al.outside q (ground arith) in
              (ap Pcb.parent e, ap Pcb.prev_sib e, ap Pcb.next_sib e))
            hc.siblings);
    }

-- A change that keeps the tree keeps the children.
same-HasChildren :
    {h g : Pcbs} {prnt : ℕ} {cs : List ℕ}
    → ((q : ℕ)
        → (child_of g q ≡ child_of h q)
          × (parent_of g q ≡ parent_of h q)
          × (prev_sib_of g q ≡ prev_sib_of h q)
          × (next_sib_of g q ≡ next_sib_of h q))
    → HasChildren h prnt cs
    → HasChildren g prnt cs
same-HasChildren {h} {g} {prnt} {cs} same hc = record {
  parent = hc.parent;
  distinct = hc.distinct;
  siblings = rw (same prnt).0 (
      Siblings-frame g h prnt null (child_of h prnt) cs
        (λ q _ _. ((same q).1, (same q).2, (same q).3)) hc.siblings);
}

saved-HasChildren :
    (st : ProcState) (p : ℕ) {h : Pcbs} {prnt : ℕ} {cs : List ℕ}
    → HasChildren h prnt cs
    → HasChildren (saved_pcbs st h p) prnt cs
unfolding put
saved-HasChildren st p = same-HasChildren λ q. ground arith

Relinked-HasChildren :
    {ps : List ℕ} {h g : Pcbs} {prnt : ℕ} {cs : List ℕ}
    → Relinked ps h g
    → HasChildren h prnt cs
    → HasChildren g prnt cs
unfolding rest
Relinked-HasChildren r = same-HasChildren λ q.
    let e = r.others q in (ap Pcb.child e, ap Pcb.parent e, ap Pcb.prev_sib e, ap Pcb.next_sib e)

Allocated-Kept :
    {h g : Pcbs} {p r : ℕ} {fs : List ℕ}
    → Allocated h p fs r g
    → (q : ℕ) → (q == p) ≡ false
    → Kept g h q
Allocated-Kept al q ne =
    let e = al.outside q ne in ((ap Pcb.next e, ap Pcb.prev e), ap Pcb.sem_add e)

-- A process that was nowhere is ready behind the others.
newborn-IsNucleus :
    {s : Kernel} {j : Jobs} (g : Kernel) (p : ℕ)
    → IsNucleus s j
    → Unblocked j.queues p
    → ((q : ℕ) → q ∉ (p ∷ j.ready) → Kept g.asl.pcbs s.asl.pcbs q)
    → IsProcQ g.asl.pcbs g.ready (j.ready ++ p ∷ [])
    → g.word ≡ s.word
    → g.current ≡ s.current
    → g.asl ≡ record s.asl { pcbs = g.asl.pcbs }
    → IsNucleus g (newborn p j)
newborn-IsNucleus {s} {j} g p n un kept q w c a =
    let free : (x : ℕ) → x ∈ (p ∷ j.ready) → Unblocked j.queues x = λ x i.
      elim (Bool-cases (x == p)) [
        | inl y ↦ let same : x ≡ p = ground arith in rw same un
        | inr z ↦ n.apart x (ground arith)
      ] in
    record {
      counts = w ∙ n.counts;
      blocking =
          subst (λ (z : Asl). IsBlocking z j.queues) (sym a)
            (IsBlocking-frame (p ∷ j.ready) g.asl.pcbs n.blocking free kept);
      queue = q;
      apart = λ x i. free x (ground (arith, i, has-append x j.ready (p ∷ [])));
      runs = c ∙ n.runs;
    }

module _ {s : Kernel} {j : Jobs} {p : ℕ} {fs cs : List ℕ} (state : ProcState) (n : IsNucleus s j)
    (is : IsFree s.asl.pcbs (p ∷ fs)) (hc : HasChildren s.asl.pcbs s.current cs)
    (orphan : p ∉ (s.current ∷ cs)) (out : p ∉ j.ready) (un : Unblocked j.queues p)
    (at : (state.reg a1 == null) ≡ false) where
  -- the end of the call
  started :
      (g : Kernel)
      → IsNucleus g (newborn p j)
      → HasChildren g.asl.pcbs s.current (p ∷ cs)
      → g.process_count ≡ add32 s.process_count 1
      → g.area ≡ s.area
      → Returns (λ _. Created s j p cs state) (start state p g)
  started g n' ch c ar =
      rw (at, save_state-ok (g.area (state.reg a1)) p g is.stack.1)
        (returns (record {
          nucleus =
              same-IsNucleus _ refl refl refl refl (saved-IsNucleus (g.area (state.reg a1)) p n');
          children = saved-HasChildren (g.area (state.reg a1)) p ch;
          begins = (
            (g.asl.pcbs.cell p).state,
            saved-hit (g.area (state.reg a1)) g.asl.pcbs p
                ∙ ap
                    (λ (a : ℕ → ProcState). copy_state (a (state.reg a1)) (g.asl.pcbs.cell p).state)
                    ar,
          );
          total = c;
          answer = ap (λ (a : ℕ → ProcState). set_reg (a syscall_old_area) v0 0) ar;
        }))

  -- the process is on the list of children, and goes to the ready queue
  enlisted :
      (h : Pcbs) (b : Kernel)
      → b ≡ record (with_pcbs s h) { process_count = add32 s.process_count 1 }
      → HasChildren h s.current (p ∷ cs)
      → ((q : ℕ) → (q == p) ≡ false → Kept h s.asl.pcbs q)
      → Returns (λ _. Created s j p cs state) (enlist state p b)
  enlisted h b e ch kept =
      let q : IsProcQ h s.ready j.ready =
        IsProcQ-frame h s.asl.pcbs s.ready j.ready (λ x i. (kept x (ground arith)).0) n.queue in
      rw e (
        Returns-bind {k = λ _. start state p}
          (make_ready-Inserted
            {s = record (with_pcbs s h) { process_count = add32 s.process_count 1 }} p q is.stack.1
            out)
          λ _ g (t, h', e', ins). rw e' (
            started (record (with_pcbs s h') { process_count = add32 s.process_count 1; ready = t })
              (newborn-IsNucleus _ p n un
                (λ x o.
                  Kept-trans h' h s.asl.pcbs x (Relinked-Kept ins.relinked x o)
                    (kept x (ground (arith, o))))
                ins.queue refl refl refl)
              (Relinked-HasChildren ins.relinked ch) refl refl))

  -- SYS1 with the free block `p` in front.
  pub sys_create-Created : Returns (λ _. Created s j p cs state) (sys_create state s)
  unfolding sys_create
  sys_create-Created =
      Returns-bind {k = enrol state} (on_pcb-Returns alloc_pcb s (alloc_pcb-cons is))
        λ r g (h, e, al).
          let hc' = spared_children r hc al (ground (arith, orphan)) (ground (arith, orphan)) in
          rw (e, al.result, IsPcb-ne_null p is.stack.1)
            (Returns-bind {k = λ _. enlist state p}
              (on_pcb-Returns (insert_child s.current p)
                (record (with_pcbs s h) { process_count = add32 s.process_count 1 })
                (insert_child-cons p hc' is.stack.1 (ground (arith, orphan))))
              λ _ b (h', e', ad). enlisted h' b e' ad.children λ q ne.
                Kept-trans h' h s.asl.pcbs q (tree-Kept h h' ad.others q) (Allocated-Kept al q ne))
