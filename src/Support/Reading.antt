-- ===== src/Support/Reading.antt =====
-- readTerminal of phase3/vmIOsupport.c.
use kaya_os.Base.{
  Bool-cases, inl, inr, ℕ, zero, suc, ◌+◌, ◌-◌, ◌<◌, ◌≡◌, refl, ap, ◌∙◌, Bool, true, false, not,
  ◌&&◌, leb, ltb, ◌==◌, ==-refl, if◌then◌else◌, List, [], ◌∷◌, arith, panic, exit, Cmd, pure, ◌>>◌,
  Returns, returns, Returns-bind,
}
use Prim.Native.Nat.{bit_and}
use kaya_os.Pcb.{old_state}
use kaya_os.Kernel.{update}
use kaya_os.Kernel.Exceptions.{systrap}
use kaya_os.Kernel.Interrupts.{terminal_line}
use kaya_os.Support.{
  Support, World, Event, passeren, verhogen, wait_io, mutex, syscall, interrupts, set_command,
  set_user, set_v0, change, is_user,
}
use kaya_os.Support.Devices.{
  terminal_dev, term_read_sem, received, receive_char, receive_loop, read_terminal,
}
use kaya_os.Support.Trace.{held, is_command_of, IsGuarded, off-even, IsPrivate}

abbrev is_read : ℕ → Event → Bool
is_read id (wait_io line dev r) = (line == terminal_line) && ((dev == id - 1) && (r == 1))
is_read id e = false

-- How many characters the process has asked its terminal for.
abbrev pub reads : ℕ → List Event → ℕ
reads id [] = 0
reads id (e ∷ t) = if is_read id e then suc (reads id t) else reads id t

-- The terminal gives the characters of `input` one after the other, without an error.
abbrev pub IsTyping : World → ℕ → (ℕ → ℕ) → Type 0
IsTyping w id input =
    (t : List Event)
    → let a = w.answer (wait_io terminal_line (id - 1) 1 ∷ t) in
      ((bit_and a 0xFF == 5) ≡ true) × (received a ≡ input (reads id t))

-- The memory `b` with the characters of `input` from `first` on at `addr`, `n` of them.
abbrev pub stored : (ℕ → ℕ) → (input : ℕ → ℕ) → (first addr n : ℕ) → ℕ → ℕ
stored b input first addr n a =
    if leb addr a && ltb a (addr + n) then input (first + (a - addr)) else b a

-- `i` characters of the line have come in.
record Line (b input : ℕ → ℕ) (id first addr i : ℕ) (g : Support) : Type 0 where
  count : reads id g.trace ≡ first + i
  bytes : (a : ℕ) → g.memory.byte a ≡ stored b input first addr i a
  locked : held (mutex (term_read_sem id)) g.trace ≡ true
  guarded : IsGuarded (is_command_of (terminal_dev id)) (mutex (term_read_sem id)) g.trace

-- The next character has come in too, and is not stored yet.
record Taken (b input : ℕ → ℕ) (id first addr i : ℕ) (g : Support) : Type 0 where
  count : reads id g.trace ≡ first + suc i
  bytes : (a : ℕ) → g.memory.byte a ≡ stored b input first addr i a
  locked : held (mutex (term_read_sem id)) g.trace ≡ true
  guarded : IsGuarded (is_command_of (terminal_dev id)) (mutex (term_read_sem id)) g.trace

-- What a call for one character promises.
abbrev Got : (b input : ℕ → ℕ) (id first addr i x : ℕ) → Support → Type 0
Got b input id first addr i x g =
    ((bit_and x 0xFF == 5) ≡ true)
    × (received x ≡ input (first + i))
    × Taken b input id first addr i g

receive_char-Got :
    (w : World) (b input : ℕ → ℕ) (id first addr i : ℕ) (s : Support)
    → IsPrivate w
    → IsTyping w id input
    → Line b input id first addr i s
    → Returns (Got b input id first addr i) (receive_char w id s)
unfolding receive_char interrupts set_command syscall
receive_char-Got w b input id first addr i s p r l =
    let asked = r _ in
    returns (
      asked.0,
      asked.1 ∙ ap input l.count,
      record {
        count = rw (==-refl (id - 1)) (ground (arith, l.count));
        bytes = λ a. p.bytes _ _ a ∙ l.bytes a;
        locked = l.locked;
        guarded = (
          λ e. absurd (ground (arith, e)),
          (
            λ e. absurd (ground (arith, e)),
            (λ e. (l.locked, off-even s.status), (λ e. absurd (ground (arith, e)), l.guarded)),
          ),
        );
      },
    )

-- The line ends with its character `n`.
pub record IsLine (input : ℕ → ℕ) (first n : ℕ) : Type 0 where
  pub ends : (input (first + n) == 0x0A) ≡ true
  pub before : (i : ℕ) → i < n → (input (first + i) == 0x0A) ≡ false

-- storing the character `i`
stored-more :
    (b input : ℕ → ℕ) (first addr i c : ℕ)
    → c ≡ input (first + i)
    → (a : ℕ)
    → (if a == addr + i then c else stored b input first addr i a)
      ≡ stored b input first addr (suc i) a
stored-more b input first addr i c e a = elim (Bool-cases (a == addr + i)) [
  | inl h ↦
      let same : a - addr ≡ i = ground arith in
      let in_range : (leb addr a && ltb a (addr + suc i)) ≡ true = ground arith in
      rw (h, in_range, same) e
  | inr h ↦
      let same : (leb addr a && ltb a (addr + suc i)) ≡ (leb addr a && ltb a (addr + i)) =
        ground arith in
      rw (h, same) refl
]

-- the part of a round behind the call for the character
abbrev take_char : World → (k id addr i status : ℕ) → Cmd Support ℕ
take_char w k id addr i status = do
  let finished = received status == 0x0A
  if finished
      then pure tt
      else change (λ m. record m { byte = update m.byte addr (received status) })
  if not (bit_and status 0xFF == 5)
      then exit panic
      else if finished
      then pure i
      else receive_loop w k id (addr + 1) (i + 1)

Taken-Line :
    {b input : ℕ → ℕ} {id first addr i : ℕ} {g : Support} (x : ℕ)
    → received x ≡ input (first + i)
    → Taken b input id first addr i g
    → Line b input id first addr (i + 1) (record g {
      memory = record g.memory { byte = update g.memory.byte (addr + i) (received x) };
    })
Taken-Line {b} {input} {id} {first} {addr} {i} {g} x c t =
    let one : i + 1 ≡ suc i = omega arith in
    rw one (record {
      count = t.count;
      bytes = λ a. rw (t.bytes a) (stored-more b input first addr i (received x) c a);
      locked = t.locked;
      guarded = t.guarded;
    })

receive_loop-Taken :
    (w : World) (b input : ℕ → ℕ) (id first addr n k left i : ℕ) (s : Support)
    → IsPrivate w
    → IsTyping w id input
    → IsLine input first n
    → i + left ≡ n
    → left < k
    → Line b input id first addr i s
    → Returns
        (λ x g. (x ≡ n) × Taken b input id first addr n g)
        (receive_loop w k id (addr + i) i s)
unfolding receive_loop
receive_loop-Taken w b input id first addr n zero left i s p r line e fuel l = absurd (omega arith)
receive_loop-Taken w b input id first addr n (suc k) zero i s p r line e fuel l =
    let last : i ≡ n = omega arith in
    Returns-bind {k = take_char w k id (addr + i) i}
      (receive_char-Got w b input id first addr i s p r l)
      λ x g (fine, c, t).
        let ends : (received x == 0x0A) ≡ true = rw (c, last) line.ends in
        rw (ends, fine) (returns (last, rw last at t))
receive_loop-Taken w b input id first addr n (suc k) (suc left) i s p r line e fuel l =
    let more : (addr + i) + 1 ≡ addr + (i + 1) = omega arith in
    Returns-bind {k = take_char w k id (addr + i) i}
      (receive_char-Got w b input id first addr i s p r l)
      λ x g (fine, c, t).
        let goes : (received x == 0x0A) ≡ false = rw c (line.before i (omega arith)) in
        rw (goes, fine, more)
          (receive_loop-Taken w b input id first addr n k left (i + 1) _ p r line (omega arith)
            (omega arith) (Taken-Line x c t))

-- What readTerminal promises of a line of `n` characters before its end.
pub record Heard (s : Support) (input : ℕ → ℕ) (addr n id : ℕ) (g : Support) : Type 0 where
  pub consumed : reads id g.trace ≡ reads id s.trace + suc n
  pub bytes : (a : ℕ) → g.memory.byte a ≡ stored s.memory.byte input (reads id s.trace) addr n a
  pub released : held (mutex (term_read_sem id)) g.trace ≡ false
  pub guarded : IsGuarded (is_command_of (terminal_dev id)) (mutex (term_read_sem id)) g.trace
  pub count : ((g.memory.user id).states systrap old_state).reg 1 ≡ n

-- the answer to the caller, and the release of the terminal
abbrev finish : World → (id i : ℕ) → Cmd Support (Unit {0})
finish w id i = do
  set_v0 id systrap old_state i
  syscall w (verhogen (mutex (term_read_sem id)))
  pure tt

finish-Heard :
    (w : World) (s g : Support) (input : ℕ → ℕ) (addr n id : ℕ)
    → IsPrivate w
    → is_user id ≡ true
    → Taken s.memory.byte input id (reads id s.trace) addr n g
    → Returns (λ _. Heard s input addr n id) (finish w id n g)
unfolding set_user syscall
finish-Heard w s g input addr n id p u t = rw u (
    returns (record {
      consumed = t.count;
      bytes = λ a. p.bytes _ _ a ∙ t.bytes a;
      released = rw (==-refl (term_read_sem id)) refl;
      guarded = (λ e. absurd (ground (arith, e)), t.guarded);
      count = ap (λ v. (v.states systrap old_state).reg 1) (p.users _ _ id) ∙ rw (==-refl id) refl;
    }))

-- With no other process writing its memory and a terminal that gives the characters of `input`
-- without an error, readTerminal ends, if it has a round for each character of the line, and stores
-- the characters before the end of the line at `addr` and nothing else. It takes the end of the
-- line off the input, gives the caller the number of characters, and asks for each character
-- while it holds the terminal's semaphore, which it releases, and interrupts are off.
pub read_terminal-Heard :
    (w : World) (input : ℕ → ℕ) (fuel addr n id : ℕ) (s : Support)
    → IsPrivate w
    → IsTyping w id input
    → IsLine input (reads id s.trace) n
    → n < fuel
    → is_user id ≡ true
    → IsGuarded (is_command_of (terminal_dev id)) (mutex (term_read_sem id)) s.trace
    → Returns (λ _. Heard s input addr n id) (read_terminal w fuel addr id s)
unfolding read_terminal syscall
read_terminal-Heard w input fuel addr n id s p r line enough u d =
    let first = reads id s.trace in
    let t = passeren (mutex (term_read_sem id)) ∷ s.trace in
    let start = record s { memory = w.others t s.memory; trace = t } in
    let l : Line s.memory.byte input id first addr 0 start = record {
      count = omega arith;
      bytes = λ a.
          let none : (leb addr a && ltb a (addr + 0)) ≡ false = ground arith in
          p.bytes _ _ a ∙ rw none refl;
      locked = rw (==-refl (term_read_sem id)) refl;
      guarded = (λ e. absurd (ground (arith, e)), d);
    } in
    let origin : addr + 0 ≡ addr = omega arith in
    Returns-bind {k = finish w id}
      (rw origin at (
        receive_loop-Taken w s.memory.byte input id first addr n fuel n 0 start p r line
          (omega arith) enough l))
      λ i g (e, done). rw e (finish-Heard w s g input addr n id p u done)
