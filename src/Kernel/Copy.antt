-- ===== src/Kernel/Copy.antt =====
-- copyState of phase2/exceptions.c.
use kaya_os.Base.{
  ℕ, zero, suc, ◌+◌, ◌<◌, ◌≤◌, ◌≡◌, refl, arith, ltb, leb, ◌&&◌, if◌then◌else◌, ProcState,
}
use kaya_os.Kernel.{set_reg, state_reg_num, copy_loop, copy_state}

-- the fields beside the registers
abbrev SameHead : ProcState → ProcState → Type 0
SameHead g h = (g.asid ≡ h.asid) × (g.cause ≡ h.cause) × (g.status ≡ h.status) × (g.pc ≡ h.pc)

copy_loop-reg :
    (k j : ℕ) (old new : ProcState) (i : ℕ)
    → (copy_loop k j old new).reg i ≡ (if leb j i && ltb i (j + k) then old.reg i else new.reg i)
unfolding copy_loop
copy_loop-reg zero j old new i = ground arith
copy_loop-reg (suc k) j old new i =
    ground (arith, copy_loop-reg k (j + 1) old (set_reg new j (old.reg j)) i)

copy_loop-SameHead : (k j : ℕ) (old new : ProcState) → SameHead (copy_loop k j old new) new
unfolding copy_loop
copy_loop-SameHead zero j old new = (refl, refl, refl, refl)
copy_loop-SameHead (suc k) j old new = copy_loop-SameHead k (j + 1) old (set_reg new j (old.reg j))

-- What copyState promises: everything but the registers from 31 on, which a state does not have.
pub record Copied (old new g : ProcState) : Type 0 where
  pub head : (g.asid ≡ old.asid) × (g.cause ≡ old.cause) × (g.status ≡ old.status) × (g.pc ≡ old.pc)
  pub registers : (i : ℕ) → i < state_reg_num → g.reg i ≡ old.reg i
  pub others : (i : ℕ) → state_reg_num ≤ i → g.reg i ≡ new.reg i

-- copyState copies the address space, the cause, the status, the program counter and the 31
-- registers, and writes nothing behind them.
pub copy_state-Copied : (old new : ProcState) → Copied old new (copy_state old new)
unfolding copy_state
copy_state-Copied old new =
    let start = record new {
      cause = old.cause;
      asid = old.asid;
      status = old.status;
      pc = old.pc;
    } in
    record {
      head = copy_loop-SameHead state_reg_num 0 old start;
      registers = λ i b. ground (arith, copy_loop-reg state_reg_num 0 old start i);
      others = λ i b. ground (arith, copy_loop-reg state_reg_num 0 old start i);
    }
