-- ===== src/Support/Disks.antt =====
-- diskIO of phase3/vmIOsupport.c.
use kaya_os.Base.{
  ℕ, ◌≡◌, refl, Bool, true, false, not, ltb, ◌==◌, Bool-cases, inl, inr, arith, Exit, panic, ◌||◌,
  ◌⊎◌, Leaves, leaves, Leaves-bind, Leaves-mono,
}
use kaya_os.Base.Word.{le_zero}
use kaya_os.Support.{Support, World, is_user}
use kaya_os.Support.Pager.{read_block, write_block}
use kaya_os.Support.Devices.{disk_io}
use kaya_os.Support.Pool.{pool, IsPool}
use kaya_os.Support.Paging.{IsAlone}
use kaya_os.Support.Ending.{Ended, me_irl-Ended}

-- The disk number or the address that a process gives to diskIO is none of its own.
abbrev pub is_refused : (block disk : ℕ) → Bool
is_refused block disk = le_zero disk || ltb block 0x80000000

-- What a call of diskIO comes to: the end of the process for a bad argument, and PANIC with nothing
-- done for good ones.
abbrev pub DiskOutcome : (s : Support) (block disk id : ℕ) → Exit → Support → Type 0
DiskOutcome s block disk id e g =
    ((is_refused block disk ≡ true) × Ended s id e g)
    ⊎ ((is_refused block disk ≡ false) × (e ≡ panic) × (g ≡ s))

not_both :
    (direction : ℕ) → (not (direction == write_block) || not (direction == read_block)) ≡ true
not_both direction = ground arith

-- With no other process working on the pool, no call of diskIO returns: it ends the process for a
-- bad disk number or address and halts the machine by PANIC for good ones, whatever the direction,
-- before it touches a disk.
pub disk_io-DiskOutcome :
    (w : World) (block disk sector direction id : ℕ) (s : Support)
    → IsAlone w
    → IsPool (pool s.memory)
    → is_user id ≡ true
    → Leaves (DiskOutcome s block disk id) (disk_io w block disk sector direction id s)
unfolding disk_io
disk_io-DiskOutcome w block disk sector direction id s alone sound u =
    elim (Bool-cases (is_refused block disk)) [
      | inl h ↦ rw h (
          Leaves-bind _
            (Leaves-mono (me_irl-Ended w id s alone sound u) λ e g ended. inl (h, ended)))
      | inr h ↦ rw (h, not_both direction) (leaves (inr (h, refl, refl)))
    ]
