-- ===== src/Kernel/Scheduler.antt =====
-- phase2/scheduler.c.
use kaya_os.Base.{
  ℕ, ◌==◌, if◌then◌else◌, halt, panic, wait, exit, Cmd, pure, ◌>>=◌, ◌>>◌, gets, modify,
}
use Prim.Native.Nat.{bit_or}
use kaya_os.Base.Word.{add32, sub32, is_pos}
use kaya_os.Pcb
use kaya_os.Pcb.{null}
use kaya_os.Kernel.{Kernel, on_pcb, stck, load_processor}

abbrev pub quantum : ℕ
quantum = 5000

-- ALLOFF | IEON | IECON | IMON
abbrev pub interrupts_on : ℕ
interrupts_on = 0xFF05

-- The running process, if there is one, is billed for the time since it started.
unfoldable pub bill_current : Cmd Kernel (Unit {0})
bill_current = do
  c ← gets Kernel.current
  if c == null then pure tt else do
    t ← stck
    modify (λ s. record s { current_tod = t })
    started ← gets Kernel.tod_started
    on_pcb (Pcb.update c (λ b. record b { time = add32 b.time (sub32 t started) }))

-- There is no job to run.
unfoldable pub idle : Cmd Kernel (Unit {0})
idle = do
  modify (λ s. record s { current = null })
  n ← gets Kernel.process_count
  if n == 0
      then exit halt
      else if is_pos n
      then (do
        soft ← gets Kernel.soft_block_count
        if soft == 0
            then exit panic
            else if is_pos soft
            then (do modify (λ s. record s { status = bit_or s.status interrupts_on }); exit wait)
            else pure tt)
      else pure tt

-- The job `p` gets the processor.
unfoldable pub dispatch : ℕ → Cmd Kernel (Unit {0})
dispatch p = do
  modify (λ s. record s { current = p })
  t ← stck
  modify (λ s. record s { tod_started = t })
  modify (λ s. record s { timer = quantum })
  c ← on_pcb (Pcb.load p)
  load_processor c.state

unfoldable pub scheduler : Cmd Kernel (Unit {0})
scheduler = do
  bill_current
  q ← gets Kernel.ready
  (p, t) ← on_pcb (Pcb.remove_proc_q q)
  modify (λ s. record s { ready = t })
  if p == null then idle else dispatch p
