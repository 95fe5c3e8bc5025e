-- ===== src/Kernel/Boot.antt =====
-- main of phase2/initial.c, to the start of the first process.
use kaya_os.Base.{
  ℕ, zero, suc, ◌+◌, ◌<◌, ◌≤◌, ◌≡◌, refl, sym, ap, ◌∙◌, [], ◌∷◌, arith, ◌==◌, Bool-cases, inl, inr,
  ProcState, Exit, load_state, Cmd, ◌>>◌, ◌>>=◌, modify, gets, Returns, Returns-mono, Returns-bind,
  returns, Leaves, Leaves-mono, Returns-Leaves,
}
use mathlib.Core.Path.{subst}
use kaya_os.Pcb
use kaya_os.Pcb.{null, max_proc, Pcbs, init_pcbs}
use kaya_os.Pcb.FreeList.{IsFree, init_pcbs-IsFree, table}
use kaya_os.Asl.{init_asl}
use kaya_os.Asl.Init.{init_asl-IsAsl}
use kaya_os.Asl.Chain.{IsAsl}
use kaya_os.Kernel.{Kernel, update, sem_address, total_sem, on_pcb, on_asl}
use kaya_os.Kernel.Access.{on_pcb-Returns, on_asl-Returns}
use kaya_os.Base.Word.{add32}
use kaya_os.Pcb.{put}
use kaya_os.Pcb.Aim.{Moved-state, Relinked-Moved}
use kaya_os.Pcb.Access.{with, update-ok}
use kaya_os.Pcb.Queue.{empty}
use kaya_os.Pcb.FreeList.{alloc_pcb-cons}
use kaya_os.Asl.Frame.{IsAsl-frame}
use kaya_os.Kernel.{make_ready}
use kaya_os.Kernel.Scheduler.{scheduler}
use kaya_os.Kernel.Interrupts.{interval}
use kaya_os.Kernel.Wake.{make_ready-Inserted}
use kaya_os.Kernel.Nucleus.{Jobs, IsNucleus, Scheduled, scheduler-Scheduled}
use kaya_os.Kernel.Initial.{
  set_new_area, clear_semaphores, init_globals, first_process, first_state, Code, main,
}

-- The semaphores from sem[i] on are 0, and no integer that was 0 is another.
record Cleared (s : Kernel) (n i : ℕ) (g : Kernel) : Type 0 where
  words : ℕ → ℕ
  state : g ≡ record s { word = words }
  kept : (a : ℕ) → s.word a ≡ 0 → words a ≡ 0
  zeros : (k : ℕ) → i ≤ k → k < i + n → words (sem_address s k) ≡ 0

clear_semaphores-Cleared :
    (n i : ℕ) (s : Kernel) → Returns (λ _. Cleared s n i) (clear_semaphores n i s)
unfolding clear_semaphores
clear_semaphores-Cleared zero i s = returns (record {
  words = s.word;
  state = refl;
  kept = λ a e. e;
  zeros = λ k lo hi. absurd (omega arith);
})
clear_semaphores-Cleared (suc n) i s =
    let s' = record s { word = update s.word (sem_address s i) 0 } in
    Returns-mono (clear_semaphores-Cleared n (i + 1) s') λ u g c. record {
      words = c.words;
      state = c.state;
      kept = λ a e. c.kept a (ground (arith, e));
      zeros = λ k lo hi. elim (Bool-cases (k == i)) [
        | inl y ↦ let same : k ≡ i = ground arith in c.kept (sem_address s k) (ground (arith, same))
        | inr o ↦ c.zeros k (ground arith) (ground arith)
      ];
    }

-- What the globals come to: no semaphore with a count, a queue or a process, and all blocks free.
pub record Initialised (s : Kernel) (g : Kernel) : Type 0 where
  pub counts : (i : ℕ) → i < total_sem → g.word (sem_address s i) ≡ 0
  pub blocked : IsAsl g.asl [] (table max_proc)
  pub blocks : IsFree g.asl.pcbs (table max_proc)
  pub globals :
      (g.ready ≡ null)
      × (g.current ≡ null)
      × (g.process_count ≡ 0)
      × (g.soft_block_count ≡ 0)
      × (g.ramtop ≡ s.ramtop)

init_globals-Initialised : (s : Kernel) → Returns (λ _. Initialised s) (init_globals s)
unfolding init_globals
init_globals-Initialised s =
    let s' = record s { ready = null; current = null; process_count = 0; soft_block_count = 0 } in
    Returns-bind {k = λ _. on_pcb init_pcbs >> on_asl init_asl}
      (clear_semaphores-Cleared total_sem 0 s')
      λ _ g1 c. rw c.state (
        Returns-bind {k = λ _. on_asl init_asl}
          (on_pcb-Returns init_pcbs _ (init_pcbs-IsFree s.asl.pcbs))
          λ _ g2 (t, e2, free). rw e2 (
            Returns-mono (on_asl-Returns init_asl _ (init_asl-IsAsl _))
              λ _ g3 (a, e3, (bare, same)). rw e3 (record {
                counts = λ i lt. c.zeros i (omega arith) (omega (arith, lt));
                blocked = bare;
                blocks = subst (λ (h : Pcbs). IsFree h (table max_proc)) (sym same) free;
                globals = (refl, refl, refl, refl, refl);
              })))

-- The first process is the only job.
abbrev only : Kernel → Jobs
only g = record { count = g.word; queues = λ k. []; ready = max_proc ∷ []; current = null }

-- The first process waits for the processor: it is ready, alone, and starts in the state of `test`.
record Prepared (s : Kernel) (test : ℕ) (g : Kernel) : Type 0 where
  jobs : IsNucleus g (only g)
  start : (old : ProcState) × ((g.asl.pcbs.cell max_proc).state ≡ first_state s.ramtop test old)
  totals : (g.process_count ≡ 1) × (g.soft_block_count ≡ 0)
  nobody : g.current ≡ null
  same_words : g.word ≡ s.word

first_process-Prepared :
    (s0 s : Kernel) (test : ℕ)
    → Initialised s0 s
    → Returns (λ _. Prepared s test) (first_process test s)
unfolding first_process put
first_process-Prepared s0 s test i =
    Returns-bind {k = first_end test} (on_pcb-Returns Pcb.alloc_pcb s (alloc_pcb-cons i.blocks))
      λ p g1 (h, e1, al).
        let old = (h.cell max_proc).state in
        let h2 = with h max_proc (λ c. record c { state = first_state s.ramtop test c.state }) in
        rw
          (
            e1,
            al.result,
            update-ok max_proc (λ c. record c { state = first_state s.ramtop test c.state }) h refl,
          )
          (Returns-bind
            {k = λ _. modify (λ s. record s { current = null; interval_timer = interval })}
            (make_ready-Inserted
              {s = record s {
                asl = record s.asl { pcbs = h2 };
                current = max_proc;
                process_count = add32 s.process_count 1;
              }}
              max_proc (empty i.globals.0 refl) refl refl)
            λ _ g3 (t, h3, e3, ins). rw e3 (
              returns (record {
                jobs = record {
                  counts = refl;
                  blocking = record {
                    entries = [];
                    frees = table max_proc;
                    list = IsAsl-frame h3 i.blocked (λ q m. absurd (ground (arith, m)));
                    total = refl;
                    queues = λ k. refl;
                  };
                  queue = ins.queue;
                  apart = λ q m k. refl;
                  runs = refl;
                };
                start = (old, Moved-state (Relinked-Moved ins.relinked) max_proc);
                totals = (ap (λ (c : ℕ). add32 c 1) i.globals.2, i.globals.3);
                nobody = refl;
                same_words = refl;
              })))
  where
    first_end : ℕ → ℕ → Cmd Kernel (Unit {0})
    first_end test p = do
      modify (λ s. record s { current = p })
      top ← gets Kernel.ramtop
      on_pcb (Pcb.update p (λ c. record c { state = first_state top test c.state }))
      modify (λ s. record s { process_count = add32 s.process_count 1 })
      make_ready p
      modify (λ s. record s { current = null; interval_timer = interval })

-- The machine has started: no process is blocked or ready, and the first one runs.
pub record Started (s : Kernel) (test : ℕ) (e : Exit) (g : Kernel) : Type 0 where
  pub loaded : (old : ProcState) × (e ≡ load_state (first_state s.ramtop test old))
  pub jobs :
      IsNucleus g (record { count = g.word; queues = λ k. []; ready = []; current = max_proc })
  pub zeros : (i : ℕ) → i < total_sem → g.word (sem_address s i) ≡ 0
  pub totals : (g.process_count ≡ 1) × (g.soft_block_count ≡ 0)

starts :
    (s b g : Kernel) (test : ℕ) (e : Exit)
    → (ramtop : b.ramtop ≡ s.ramtop) → ((i : ℕ) → i < total_sem → b.word (sem_address s i) ≡ 0)
    → (g1 : Kernel) → Prepared b test g1
    → Scheduled g1 (only g1) e g
    → Started s test e g
starts s b g test e top zeros g1 p d =
    let (old, state) = p.start in
    record {
      loaded = (
        old,
        d.outcome
            ∙ ap load_state
                (d.states max_proc ∙ (state ∙ ap (λ (r : ℕ). first_state r test old) top)),
      );
      jobs = record {
        counts = refl;
        blocking = d.nucleus.blocking;
        queue = d.nucleus.queue;
        apart = d.nucleus.apart;
        runs = d.nucleus.runs;
      };
      zeros = λ i lt.
          ap (λ (w : ℕ → ℕ). w (sem_address s i)) (d.nucleus.counts ∙ p.same_words) ∙ zeros i lt;
      totals = (d.totals.0 ∙ p.totals.0, d.totals.1 ∙ p.totals.1);
    }

-- Whatever the memory holds, `main` comes to a well-formed nucleus: the semaphores of the devices and
-- the clock are 0, none is waited for, no process is ready, the count of processes is 1, and the
-- one that runs is loaded in the state that starts `test`.
pub main-Started : (code : Code) (s : Kernel) → Leaves (Started s code.test) (main code s)
unfolding main set_new_area
main-Started code s =
    Returns-Leaves {k = λ _. first_process code.test >> scheduler} (init_globals-Initialised _)
      λ _ b i.
        Returns-Leaves {k = λ _. scheduler} (first_process-Prepared _ b code.test i) λ _ g1 p.
          Leaves-mono
            (scheduler-Scheduled p.jobs (inl (rw p.nobody refl)) (ground (arith, p.totals)))
            λ e g d. starts s b g code.test e i.globals.4 i.counts g1 p d
