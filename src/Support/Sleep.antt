-- ===== src/Support/Sleep.antt =====
-- delayDaemon of phase3/adl.c and DELAY of phase3/vmIOsupport.c after initADL.
use kaya_os.Base.{
  ℕ, zero, suc, ◌≡◌, refl, ◌∙◌, Bool, true, false, not, ◌&&◌, ◌==◌, List, [], ◌∷◌, Cmd, pure, ◌>>◌,
  Returns, returns, Returns-bind, Returns-mono, ◌>>=◌, ◌*◌, ◌%◌, ◌^◌,
}
use kaya_os.Base.Word.{le_signed, minus_one, add32, is_neg}
use kaya_os.Adl.Delays.{Reached, head_delay_time-never, insert_delay-never}
use kaya_os.Support.{
  Memory, Support, World, Event, verhogen, syscall, stck, private_sem, passeren, read_clock, on_adl,
}
use mathlib.Core.Path.{subst, sym}
use kaya_os.Adl.{insert_delay}
use kaya_os.Avsl.{Avsl, v_insert_blocked}
use kaya_os.Avsl.Ring.{IsAvsl}
use kaya_os.Avsl.Link.{Entered}
use kaya_os.Avsl.Enter.{v_insert_blocked-append}
use kaya_os.Support.Calls.{Addresses, delay}
use kaya_os.Support.Virtual.{on_avsl-Returns}
use kaya_os.Support.Daemon.{wake_loop, daemon_round}

-- How many semaphores have been released.
abbrev pub releases : List Event → ℕ
releases [] = 0
releases (verhogen s ∷ t) = suc (releases t)
releases (e ∷ t) = releases t

-- `n` rounds of the loop of delayDaemon
abbrev pub daemon_rounds : World → (fuel n : ℕ) → Cmd Support (Unit {0})
daemon_rounds w fuel zero = pure tt
daemon_rounds w fuel (suc n) = daemon_round w fuel >> daemon_rounds w fuel n

-- The other processes only use the delay list through insertDelay and removeDelay.
abbrev pub IsOrderly : World → Type 0
IsOrderly w = (t : List Event) (m : Memory) → Reached m.adl → Reached (w.others t m).adl

-- What a round leaves: no semaphore released, and the list in reach of initADL.
abbrev Idle : Support → Support → Type 0
Idle s g = (releases g.trace ≡ releases s.trace) × Reached g.memory.adl

and_false : (b : Bool) → (b && false) ≡ false
and_false true = refl
and_false false = refl

wake_loop-never :
    (w : World) (k clock : ℕ) (s : Support)
    → Reached s.memory.adl
    → Returns (λ _ g. Idle s g) (wake_loop w (suc k) clock s)
unfolding wake_loop
wake_loop-never w k clock s r =
    let stops : (le_signed minus_one clock && not (minus_one == minus_one)) ≡ false =
      and_false (le_signed minus_one clock) in
    rw (head_delay_time-never r, stops) (returns (refl, r))

daemon_round-never :
    (w : World) (k : ℕ) (s : Support)
    → IsOrderly w
    → Reached s.memory.adl
    → Returns (λ _ g. Idle s g) (daemon_round w (suc k) s)
unfolding daemon_round syscall stck
daemon_round-never w k s orderly r = wake_loop-never w k _ _ (orderly _ _ r)

-- After initADL, and with the delay list used only through insertDelay and removeDelay, delayDaemon
-- releases no semaphore in any number of rounds, so that it wakes no process, and each round ends.
pub daemon_rounds-never :
    (w : World) (k n : ℕ) (s : Support)
    → IsOrderly w
    → Reached s.memory.adl
    → Returns (λ _ g. releases g.trace ≡ releases s.trace) (daemon_rounds w (suc k) n s)
daemon_rounds-never w k zero s orderly r = returns refl
daemon_rounds-never w k (suc n) s orderly r =
    Returns-bind (daemon_round-never w k s orderly r)
      λ x g (e, r'). Returns-mono (daemon_rounds-never w k n g orderly r') λ y h e'. e' ∙ e

-- What DELAY comes to after initADL: the process waits on its private semaphore, and is on the ring
-- of avsl.c, but the delay list is as it was.
pub record Lost (w : World) (s : Support) (xs : List ℕ) (f : ℕ) (fs : List ℕ) (key id : ℕ)
    (g : Support) : Type 0 where
  pub waiting : Memory
  pub entered : Entered s.memory.avsl xs f fs key id true waiting.avsl
  pub list : waiting.adl ≡ s.memory.adl
  pub trace : g.trace ≡ passeren (private_sem id) ∷ read_clock ∷ s.trace
  pub goes_on : g.memory ≡ w.others (passeren (private_sem id) ∷ read_clock ∷ s.trace) waiting

-- The part of DELAY behind the insertion into the ring.
abbrev sleep : World → (id time : ℕ) → Cmd Support (Unit {0})
sleep w id time = do
  now ← stck w
  on_adl (insert_delay (add32 now time) id)
  syscall w (passeren (private_sem id))
  pure tt

sleep-Lost :
    (w : World) (id time key f : ℕ) (xs fs : List ℕ) (s : Support) (a : Avsl)
    → Reached s.memory.adl
    → Entered s.memory.avsl xs f fs key id true a
    → Returns
        (λ _ g. Lost w s xs f fs key id g)
        (sleep w id time (record s { memory = record s.memory { avsl = a } }))
unfolding stck syscall
sleep-Lost w id time key f xs fs s a r e =
    rw (insert_delay-never (add32 (w.answer (read_clock ∷ s.trace)) time) id r) (
      returns (record {
        waiting = record s.memory { avsl = a };
        entered = e;
        list = refl;
        trace = refl;
        goes_on = refl;
      }))

-- After initADL, DELAY for a number of seconds that is not negative in 32 bits does not put the
-- process on the delay list: it is put on the ring of the virtual semaphores, if a node is free,
-- and waits on its private semaphore.
pub delay-Lost :
    (w : World) (addresses : Addresses) (id seconds f : ℕ) (xs fs : List ℕ) (s : Support)
    → Reached s.memory.adl
    → IsAvsl s.memory.avsl xs (f ∷ fs)
    → is_neg (seconds * 1000000 % 2 ^ 32) ≡ false
    → Returns
        (λ _ g. Lost w s xs f fs (addresses.private_address id) id g)
        (delay w addresses id seconds s)
unfolding delay
delay-Lost w addresses id seconds f xs fs s r is pos =
    let key = addresses.private_address id in
    let time = seconds * 1000000 % 2 ^ 32 in
    rw pos (
      Returns-bind
        (on_avsl-Returns (v_insert_blocked key id) s
          (v_insert_blocked-append key id f xs fs s.memory.avsl is))
        λ b g (a, e, same).
          let e' = subst (λ c. Entered s.memory.avsl xs f fs key id c a) e.result e in
          subst (λ h. Returns (λ _ g. Lost w s xs f fs key id g) (sleep w id time h)) (sym same)
            (sleep-Lost w id time key f xs fs s a r e'))
