-- ===== src/Kernel/Dispatch.antt =====
-- scheduler of phase2/scheduler.c when there is a job to run.
use kaya_os.Base.{
  ℕ, suc, ◌≡◌, refl, ap, ◌∙◌, true, false, List, ◌∷◌, arith, ◌==◌, ◌∉◌, ◌⊎◌, inl, inr, Exit,
  load_state, exit, Cmd, gets, modify, ◌>>=◌, ◌>>◌, if◌then◌else◌, Returns, returns, Leaves, leaves,
  Returns-Leaves,
}
use kaya_os.Base.Word.{add32, sub32}
use kaya_os.Pcb.{null, Pcb, Pcbs, put, remove_proc_q}
use kaya_os.Pcb.Access.{with, IsPcb, load-ok, update-ok, IsPcb-ne_null}
use kaya_os.Pcb.Links.{Relinked, rest}
use kaya_os.Pcb.Queue.{IsProcQ}
use kaya_os.Pcb.Frame.{SameLinks, IsProcQ-frame, IsProcQ-IsPcb}
use kaya_os.Pcb.Out.{remove_proc_q-cons}
use kaya_os.Pcb.Aim.{Kept, Kept-trans, Relinked-Kept}
use kaya_os.Asl.{Asl}
use kaya_os.Kernel.{Kernel, on_pcb, load_processor}
use kaya_os.Kernel.Access.{with_pcbs, on_pcb-Returns}
use kaya_os.Kernel.Scheduler.{quantum, bill_current, dispatch, idle, scheduler}

-- The time of the running process grows by the time since it started.
abbrev pub billed : Kernel → ℕ → ℕ
billed s c = add32 (s.asl.pcbs.cell c).time (sub32 (s.tod s.readings) s.tod_started)

-- The descriptors, the free list of blocks and the integers of memory are what they were.
pub record Same (s g : Kernel) : Type 0 where
  pub descriptors : g.asl ≡ record s.asl { pcbs = g.asl.pcbs }
  pub words : g.word ≡ s.word
  pub frees : g.asl.pcbs.free ≡ s.asl.pcbs.free

-- What the billing promises: it keeps the queues, the saved states and the rest of the nucleus.
pub record Billed (s g : Kernel) : Type 0 where
  pub ready : g.ready ≡ s.ready
  pub counts : (g.process_count ≡ s.process_count) × (g.soft_block_count ≡ s.soft_block_count)
  pub status : g.status ≡ s.status
  pub links : (q : ℕ) → SameLinks g.asl.pcbs s.asl.pcbs q
  pub states : (q : ℕ) → (g.asl.pcbs.cell q).state ≡ (s.asl.pcbs.cell q).state
  pub bill : (s.current == null) ≡ false → (g.asl.pcbs.cell s.current).time ≡ billed s s.current
  pub others : (q : ℕ) → (q == s.current) ≡ false → g.asl.pcbs.cell q ≡ s.asl.pcbs.cell q
  pub same : Same s g
  pub aims : (q : ℕ) → (g.asl.pcbs.cell q).sem_add ≡ (s.asl.pcbs.cell q).sem_add

-- There is no running process, or it is an entry of the table.
abbrev pub IsCurrent : Kernel → Type 0
IsCurrent s = ((s.current == null) ≡ true) ⊎ IsPcb s.current

abbrev spent : Kernel → Pcbs
spent s =
    with s.asl.pcbs s.current
      (λ b. record b { time = add32 b.time (sub32 (s.tod s.readings) s.tod_started) })

spent-hit : (s : Kernel) → ((spent s).cell s.current).time ≡ billed s s.current
unfolding put
spent-hit s = ground arith

spent-miss : (s : Kernel) (q : ℕ) → (q == s.current) ≡ false → (spent s).cell q ≡ s.asl.pcbs.cell q
unfolding put
spent-miss s q ne = ground arith

spent-frees : (s : Kernel) → (spent s).free ≡ s.asl.pcbs.free
unfolding put
spent-frees s = refl

spent-kept :
    (s : Kernel) (q : ℕ)
    → SameLinks (spent s) s.asl.pcbs q
      × (((spent s).cell q).state ≡ (s.asl.pcbs.cell q).state)
      × (((spent s).cell q).sem_add ≡ (s.asl.pcbs.cell q).sem_add)
unfolding put
spent-kept s q = ground arith

-- Before a job is chosen, the running process is billed for the time since it got the processor,
-- and its own state, the others and the queues stay as they are.
pub bill_current-Billed : (s : Kernel) → IsCurrent s → Returns (λ _. Billed s) (bill_current s)
unfolding bill_current
bill_current-Billed s (inl n) = rw n (
    returns (record {
      ready = refl;
      counts = (refl, refl);
      status = refl;
      links = λ q. (refl, refl);
      states = λ q. refl;
      bill = λ f. absurd (ground arith);
      others = λ q ne. refl;
      same = record { descriptors = refl; words = refl; frees = refl };
      aims = λ q. refl;
    }))
bill_current-Billed s (inr v) =
    rw (IsPcb-ne_null s.current v, update-ok s.current _ s.asl.pcbs v)
      (returns (record {
        ready = refl;
        counts = (refl, refl);
        status = refl;
        links = λ q. (spent-kept s q).0;
        states = λ q. (spent-kept s q).1;
        bill = λ f. spent-hit s;
        others = spent-miss s;
        same = record { descriptors = refl; words = refl; frees = spent-frees s };
        aims = λ q. (spent-kept s q).2;
      }))

-- What the scheduler promises for the job `p`, in front of `ps`.
pub record Dispatched (s : Kernel) (p : ℕ) (ps : List ℕ) (e : Exit) (g : Kernel) : Type 0 where
  pub loaded : e ≡ load_state (s.asl.pcbs.cell p).state
  pub running : g.current ≡ p
  pub ready : IsProcQ g.asl.pcbs g.ready ps
  pub slice : g.timer ≡ quantum
  pub counts : (g.process_count ≡ s.process_count) × (g.soft_block_count ≡ s.soft_block_count)
  pub same : Same s g
  pub kept : (q : ℕ) → q ∉ (p ∷ ps) → Kept g.asl.pcbs s.asl.pcbs q
  pub states : (q : ℕ) → (g.asl.pcbs.cell q).state ≡ (s.asl.pcbs.cell q).state

dispatch-ok :
    (p : ℕ) (s : Kernel)
    → IsPcb p
    → dispatch p s
      ≡ exit (load_state (s.asl.pcbs.cell p).state) (record s {
        current = p;
        tod_started = s.tod s.readings;
        readings = suc s.readings;
        timer = quantum;
      })
unfolding dispatch load_processor
dispatch-ok p s v = rw (load-ok p s.asl.pcbs v) refl

-- the scheduler from the removal on, and from its result on
abbrev pub choose : Cmd Kernel (Unit {0})
choose = do
  q ← gets Kernel.ready
  (p, t) ← on_pcb (remove_proc_q q)
  modify (λ s. record s { ready = t })
  if p == null then idle else dispatch p

abbrev pub chosen : ℕ × ℕ → Cmd Kernel (Unit {0})
chosen r = do modify (λ s. record s { ready = r.1 }); if r.0 == null then idle else dispatch r.0

state-kept :
    {ps : List ℕ} {h g : Pcbs} → Relinked ps h g → (q : ℕ) → (g.cell q).state ≡ (h.cell q).state
unfolding rest
state-kept r q = ap Pcb.state (r.others q)

choose-Dispatched :
    (s b : Kernel) (p : ℕ) (ps : List ℕ)
    → Billed s b
    → IsProcQ b.asl.pcbs b.ready (p ∷ ps)
    → Leaves (Dispatched s p ps) (choose b)
choose-Dispatched s b p ps bd q =
    let v = IsProcQ-IsPcb p q (ground arith) in
    let ne = IsPcb-ne_null p v in
    Returns-Leaves {k = chosen} (on_pcb-Returns (remove_proc_q b.ready) b (remove_proc_q-cons q))
      λ r g (h, eq, (r0, q', re)).
        rw (eq, r0, ne, dispatch-ok p (record (with_pcbs b h) { ready = r.1 }) v)
          (leaves (record {
            loaded = ap load_state (state-kept re p ∙ bd.states p);
            running = refl;
            ready = q';
            slice = refl;
            counts = bd.counts;
            same = record {
              descriptors = ap {A = Asl} (λ a. record a { pcbs = h }) bd.same.descriptors;
              words = bd.same.words;
              frees = re.same_free ∙ bd.same.frees;
            };
            kept = λ q o.
                Kept-trans h b.asl.pcbs s.asl.pcbs q (Relinked-Kept re q o) (bd.links q, bd.aims q);
            states = λ q. state-kept re q ∙ bd.states q;
          }))

-- With jobs on the ready queue the scheduler gives the processor to the first: its saved state is
-- loaded with a full time slice, and the others stay ready in order.
pub scheduler-Dispatched :
    (s : Kernel) (p : ℕ) (ps : List ℕ)
    → IsCurrent s
    → IsProcQ s.asl.pcbs s.ready (p ∷ ps)
    → Leaves (Dispatched s p ps) (scheduler s)
unfolding scheduler
scheduler-Dispatched s p ps c q =
    Returns-Leaves {k = λ _. choose} (bill_current-Billed s c) λ _ b bd.
      choose-Dispatched s b p ps bd
        (rw bd.ready (IsProcQ-frame b.asl.pcbs s.asl.pcbs s.ready (p ∷ ps) (λ q _. bd.links q) q))
