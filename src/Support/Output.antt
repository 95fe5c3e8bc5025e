-- ===== src/Support/Output.antt =====
-- The loops of phase3/vmIOsupport.c that send characters to a device.
use kaya_os.Base.{
  ℕ, zero, suc, ◌+◌, Bool, ◌≡◌, refl, ap, ◌∙◌, true, false, ◌==◌, ==-refl, not, if◌then◌else◌, List,
  [], ◌∷◌, ◌++◌, arith, exit, panic, Cmd, pure, ◌>>=◌, ◌>>◌, Returns, returns, Returns-bind,
}
use Prim.Native.Nat.{bit_and}
use kaya_os.Pcb.{old_state}
use kaya_os.Kernel.Exceptions.{systrap}
use kaya_os.Support.{
  Support, World, mutex, Event, passeren, verhogen, syscall, set_user, set_v0, is_user,
}
use kaya_os.Support.Devices.{out_loop}
use kaya_os.Support.Trace.{held, IsGuarded, IsPrivate}

-- The first `n` characters at `addr`, each as `encode` makes it, the last one first.
abbrev pub typed : (encode : ℕ → ℕ) → (ℕ → ℕ) → (addr n : ℕ) → List ℕ
typed encode byte addr zero = []
typed encode byte addr (suc n) = encode (byte (addr + n)) ∷ typed encode byte addr n

-- The commands that pass a test, under the semaphore mutexArray[`index`], the output in a trace, and
-- the form in which a character goes out.
module _ (mine : Event → Bool) (index : ℕ) (output : List Event → List ℕ) (encode : ℕ → ℕ) where
  -- Round `i` of the loop: `i` characters of `b` have gone out, behind `base`, under protection.
  pub record Round (b : ℕ → ℕ) (base : List ℕ) (addr i : ℕ) (g : Support) : Type 0 where
    pub guarded : IsGuarded mine (mutex index) g.trace
    pub locked : held (mutex index) g.trace ≡ true
    pub out : output g.trace ≡ typed encode b addr i ++ base
    pub bytes : (a : ℕ) → g.memory.byte a ≡ b a

  -- What a call promises that sends `n` characters at `addr` for the process `id`.
  pub record Output (s : Support) (addr n id : ℕ) (g : Support) : Type 0 where
    pub guarded : IsGuarded mine (mutex index) g.trace
    pub released : held (mutex index) g.trace ≡ false
    pub out : output g.trace ≡ typed encode s.memory.byte addr n ++ output s.trace
    pub count : ((g.memory.user id).states systrap old_state).reg 1 ≡ n

  -- A call for one character that sends it and gives the status `good`.
  abbrev pub IsSending : (ℕ → Cmd Support ℕ) → (good : ℕ) → Type 0
  IsSending one good =
      (b : ℕ → ℕ) (base : List ℕ) (addr i : ℕ) (s : Support)
      → Round b base addr i s
      → Returns (λ x g. ((bit_and x 0xFF == good) ≡ true) × Round b base addr (suc i) g)
          (one (addr + i) s)

  out_loop-Round :
      (one : ℕ → Cmd Support ℕ) (good : ℕ) (b : ℕ → ℕ) (base : List ℕ) (left addr i : ℕ)
      (s : Support)
      → IsSending one good
      → Round b base addr i s
      → Returns
          (λ x g. (x ≡ i + left) × Round b base addr (i + left) g)
          (out_loop one good left (addr + i) i s)
  unfolding out_loop
  out_loop-Round one good b base zero addr i s step inv =
      let none : i + 0 ≡ i = omega arith in rw none (returns (refl, inv))
  out_loop-Round one good b base (suc left) addr i s step inv =
      let next : i + suc left ≡ (i + 1) + left = omega arith in
      let more : (addr + i) + 1 ≡ addr + (i + 1) = omega arith in
      let one_more : suc i ≡ i + 1 = omega arith in
      Returns-bind
        {k = λ status.
          if not (bit_and status 0xFF == good)
          then exit panic
          else out_loop one good left ((addr + i) + 1) (i + 1)}
        (step b base addr i s inv)
        λ x g (fine, done).
          rw (fine, next, more)
            (out_loop-Round one good b base left addr (i + 1) g step (rw one_more at done))

  -- the answer to the caller, and the release of the device
  abbrev pub finish : World → (id i : ℕ) → Cmd Support (Unit {0})
  finish w id i = do set_v0 id systrap old_state i; syscall w (verhogen (mutex index)); pure tt

  -- Taking the semaphore and giving it back are no commands and no output.
  abbrev pub IsQuiet : Type 0
  IsQuiet =
      (mine (passeren (mutex index)) ≡ false)
      × (mine (verhogen (mutex index)) ≡ false)
      × ((t : List Event)
          → (output (passeren (mutex index) ∷ t) ≡ output t)
            × (output (verhogen (mutex index) ∷ t) ≡ output t))

  finish-Output :
      (w : World) (s g : Support) (addr n id : ℕ)
      → IsPrivate w
      → is_user id ≡ true
      → IsQuiet
      → Round s.memory.byte (output s.trace) addr n g
      → Returns (λ _. Output s addr n id) (finish w id n g)
  unfolding set_user syscall
  finish-Output w s g addr n id p u q inv = rw u (
      returns (record {
        guarded = (λ e. absurd (ground (arith, e, q.1)), inv.guarded);
        released = rw (==-refl index) refl;
        out = (q.2 g.trace).1 ∙ inv.out;
        count =
            ap (λ v. (v.states systrap old_state).reg 1) (p.users _ _ id) ∙ rw (==-refl id) refl;
      }))

  -- The whole of a call: it takes the semaphore, sends the characters, answers and releases.
  pub out-Output :
      (one : ℕ → Cmd Support ℕ) (good : ℕ) (w : World) (addr n id : ℕ) (s : Support)
      → IsSending one good
      → IsPrivate w
      → is_user id ≡ true
      → IsQuiet
      → IsGuarded mine (mutex index) s.trace
      → Returns
          (λ _. Output s addr n id)
          ((syscall w (passeren (mutex index)) >>= λ _.
              (out_loop one good n addr 0 >>= finish w id))
            s)
  unfolding syscall
  out-Output one good w addr n id s step p u q d =
      let t = passeren (mutex index) ∷ s.trace in
      let start = record s { memory = w.others t s.memory; trace = t } in
      let inv : Round s.memory.byte (output s.trace) addr 0 start = record {
        guarded = (λ e. absurd (ground (arith, e, q.0)), d);
        locked = rw (==-refl index) refl;
        out = (q.2 s.trace).0;
        bytes = λ a. p.bytes _ _ a;
      } in
      let origin : addr + 0 ≡ addr = omega arith in
      let all : 0 + n ≡ n = omega arith in
      Returns-bind {k = finish w id}
        (rw (origin, all) at
          (out_loop-Round one good s.memory.byte (output s.trace) n addr 0 start step inv))
        λ i g (e, done). rw e (finish-Output w s g addr n id p u q done)
