-- ===== src/Support/Calls.antt =====
-- vmSysHandler of phase3/vmIOsupport.c: the system calls of a user process.
use kaya_os.Base.{
  ℕ, ◌*◌, ◌%◌, ◌^◌, not, ◌==◌, if◌then◌else◌, ProcState, load_state, exit, Cmd, pure, ◌>>=◌, ◌>>◌,
}
use kaya_os.Base.Word.{add32, sub32, is_neg, le_zero, minus_one}
use kaya_os.Adl
use kaya_os.Avsl
use kaya_os.Pcb.{old_state}
use kaya_os.Kernel.{update}
use kaya_os.Kernel.Syscalls.{a0, a1, a2, a3}
use kaya_os.Kernel.Exceptions.{systrap}
use kaya_os.Support.{
  Support, World, private_sem, passeren, verhogen, syscall, stck, memory_of, change, on_adl,
  on_avsl, get_user, set_v0, get_current_asid,
}
use kaya_os.Support.Pager.{write_block, read_block, me_irl}
use kaya_os.Support.Devices.{write_printer, write_terminal, read_terminal, disk_io}

-- *semAdd = ...
abbrev pub set_user_word : (addr v : ℕ) → Cmd Support (Unit {0})
set_user_word addr v = change (λ m. record m { word = update m.word addr v })

-- The address of the private semaphore of a process, which delays use as a virtual semaphore.
-- The other virtual semaphores have addresses of user memory.
pub record Addresses : Type 0 where
  pub private_address : ℕ → ℕ

-- VSEMVIRT. vRemoveBlocked returns FALSE, 0, where FAILURE, -1, is asked for.
unfoldable pub v_sem_virt : World → (id sem : ℕ) → Cmd Support (Unit {0})
v_sem_virt w id sem = do
  v ← memory_of (λ m. m.word sem)
  set_user_word sem (add32 v 1)
  if not (le_zero (add32 v 1)) then pure tt else do
    giving ← on_avsl (Avsl.v_remove_blocked sem)
    if giving == minus_one then me_irl w id else pure tt
    syscall w (verhogen (private_sem giving))
    pure tt

unfoldable pub p_sem_virt : World → (id sem : ℕ) → Cmd Support (Unit {0})
p_sem_virt w id sem = do
  v ← memory_of (λ m. m.word sem)
  set_user_word sem (sub32 v 1)
  if not (is_neg (sub32 v 1))
      then pure tt
      else do on_avsl (Avsl.v_insert_blocked sem id); syscall w (passeren (private_sem id)); pure tt

-- DELAY, for a number of seconds.
unfoldable pub delay : World → Addresses → (id seconds : ℕ) → Cmd Support (Unit {0})
delay w addresses id seconds = do
  let time = seconds * 1000000 % 2 ^ 32
  if is_neg time then me_irl w id else pure tt
  on_avsl (Avsl.v_insert_blocked (addresses.private_address id) id)
  now ← stck w
  on_adl (Adl.insert_delay (add32 now time) id)
  syscall w (passeren (private_sem id))
  pure tt

unfoldable pub get_tod : World → ℕ → Cmd Support (Unit {0})
get_tod w id = do now ← stck w; set_v0 id systrap old_state now

-- The switch on the number of the call; `fuel` is for the line that READTERMINAL reads.
unfoldable pub route : World → Addresses → (fuel id : ℕ) → ProcState → Cmd Support (Unit {0})
route w addresses fuel id old =
    let call = old.reg a0 in
    if call == 9
    then read_terminal w fuel (old.reg a1) id
    else if call == 10
    then write_terminal w (old.reg a1) (old.reg a2) id
    else if call == 11
    then v_sem_virt w id (old.reg a1)
    else if call == 12
    then p_sem_virt w id (old.reg a1)
    else if call == 13
    then delay w addresses id (old.reg a1)
    else if call == 14
    then disk_io w (old.reg a1) (old.reg a2) (old.reg a3) write_block id
    else if call == 15
    then disk_io w (old.reg a1) (old.reg a2) (old.reg a3) read_block id
    else if call == 16
    then write_printer w (old.reg a1) (old.reg a2) id
    else if call == 17
    then get_tod w id
    else if call == 18
    then me_irl w id
    else pure tt

unfoldable pub vm_sys_handler : World → Addresses → ℕ → Cmd Support (Unit {0})
vm_sys_handler w addresses fuel = do
  id ← get_current_asid
  u ← get_user id
  route w addresses fuel id (u.states systrap old_state)
  u' ← get_user id
  exit (load_state (u'.states systrap old_state))
