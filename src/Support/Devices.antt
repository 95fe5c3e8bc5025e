-- ===== src/Support/Devices.antt =====
-- The device calls of phase3/vmIOsupport.c: printers, terminals and disks.
use kaya_os.Base.{
  ℕ, zero, suc, ◌+◌, ◌-◌, ◌*◌, true, false, not, ◌||◌, ltb, ◌==◌, if◌then◌else◌, panic, exit,
  out_of_fuel, Cmd, pure, ◌>>=◌, ◌>>◌,
}
use Prim.Native.Nat.{bit_and, bit_or}
use kaya_os.Base.Word.{is_neg, le_zero, shl, shr, quot32, rem32, char_word}
use kaya_os.Pcb.{old_state}
use kaya_os.Kernel.{update}
use kaya_os.Kernel.Exceptions.{systrap}
use kaya_os.Kernel.Interrupts.{terminal_line}
use kaya_os.Support.{
  page_size, Support, World, mutex, passeren, verhogen, wait_io, transmit, syscall, log, memory_of,
  change, set_v0, set_command, set_data0, interrupts, copy,
}
use kaya_os.Support.Pager.{write_block, read_block, ready, seek, transfer, me_irl}

-- PRNTINT, PRINTDEV, TERM0DEV, TERMREADSEM and TERMSEMSTART of const.h
abbrev pub printer_line : ℕ
printer_line = 6

abbrev pub printer_dev : ℕ → ℕ
printer_dev id = 24 + (id - 1)

abbrev pub terminal_dev : ℕ → ℕ
terminal_dev id = 32 + (id - 1)

abbrev pub term_read_sem : ℕ → ℕ
term_read_sem id = 32 + (id - 1)

abbrev pub term_write_sem : ℕ → ℕ
term_write_sem id = 40 + (id - 1)

-- The rounds of `while(i < len)` from 0 on: none for a negative length.
abbrev pub rounds : ℕ → ℕ
rounds len = if is_neg len then 0 else len

-- One character on the printer, and the status.
unfoldable pub print_char : World → (id addr : ℕ) → Cmd Support ℕ
print_char w id addr = do
  interrupts false
  c ← memory_of (λ m. m.byte addr)
  set_data0 (printer_dev id) (char_word c)
  set_command (printer_dev id) 2
  status ← syscall w (wait_io printer_line (id - 1) 0)
  interrupts true
  pure status

-- The rest of the loops of writePrinter and writeTerminal, of `left` rounds, from round `i` on, with
-- the value of `i` behind the loop. `one` sends the character at an address, and `good` is the
-- status that it has to give.
unfoldable pub out_loop : (ℕ → Cmd Support ℕ) → (good left addr i : ℕ) → Cmd Support ℕ
out_loop one good zero addr i = pure i
out_loop one good (suc left) addr i = do
  status ← one addr
  if not (bit_and status 0xFF == good)
      then exit panic
      else out_loop one good left (addr + 1) (i + 1)

unfoldable pub write_printer : World → (addr len id : ℕ) → Cmd Support (Unit {0})
write_printer w addr len id = do
  syscall w (passeren (mutex (printer_dev id)))
  i ← out_loop (print_char w id) ready (rounds len) addr 0
  set_v0 id systrap old_state i
  syscall w (verhogen (mutex (printer_dev id)))
  pure tt

-- t_transm_command is d_data1.
unfoldable pub set_transmit : (dev value : ℕ) → Cmd Support (Unit {0})
set_transmit dev value = do
  change (λ m. record m { device = update m.device dev (record (m.device dev) { data1 = value }) })
  log (transmit dev value)

-- One character on the terminal, TRANSCHAR | c << SHIFT_CHAR, and the status.
unfoldable pub send_char : World → (id addr : ℕ) → Cmd Support ℕ
send_char w id addr = do
  interrupts false
  c ← memory_of (λ m. m.byte addr)
  set_transmit (terminal_dev id) (bit_or 2 (shl (char_word c) 8))
  status ← syscall w (wait_io terminal_line (id - 1) 0)
  interrupts true
  pure status

unfoldable pub write_terminal : World → (addr len id : ℕ) → Cmd Support (Unit {0})
write_terminal w addr len id = do
  syscall w (passeren (mutex (term_write_sem id)))
  i ← out_loop (send_char w id) 5 (rounds len) addr 0
  set_v0 id systrap old_state i
  syscall w (verhogen (mutex (term_write_sem id)))
  pure tt

-- RECVCHAR to the terminal, and the status.
unfoldable pub receive_char : World → ℕ → Cmd Support ℕ
receive_char w id = do
  interrupts false
  set_command (terminal_dev id) 2
  status ← syscall w (wait_io terminal_line (id - 1) 1)
  interrupts true
  pure status

-- The character in a status of the receiver.
abbrev pub received : ℕ → ℕ
received status = shr (bit_and status 0xFF00) 8

-- The loop of readTerminal, up to the end of the line; `i` characters have been read. The terminal
-- may never send that, so that the loop has fuel.
unfoldable pub receive_loop : World → (fuel id addr i : ℕ) → Cmd Support ℕ
receive_loop w zero id addr i = λ _. out_of_fuel
receive_loop w (suc k) id addr i = do
  status ← receive_char w id
  let finished = received status == 0x0A
  if finished
      then pure tt
      else change (λ m. record m { byte = update m.byte addr (received status) })
  if not (bit_and status 0xFF == 5)
      then exit panic
      else if finished
      then pure i
      else receive_loop w k id (addr + 1) (i + 1)

unfoldable pub read_terminal : World → (fuel addr id : ℕ) → Cmd Support (Unit {0})
read_terminal w fuel addr id = do
  syscall w (passeren (mutex (term_read_sem id)))
  i ← receive_loop w fuel id addr 0
  set_v0 id systrap old_state i
  syscall w (verhogen (mutex (term_read_sem id)))
  pure tt

-- OSCODEEND + diskNo * PAGESIZE
abbrev pub disk_buffer : ℕ → ℕ
disk_buffer disk = 0x2001E000 + disk * page_size

-- diskIO behind its checks, with the head, the sector and the cylinder of the sector number.
unfoldable pub disk_transfer :
    World → (block disk head sector cylinder direction id : ℕ) → Cmd Support (Unit {0})
disk_transfer w block disk head sector cylinder direction id = do
  syscall w (passeren (mutex disk))
  if direction == write_block then copy block (disk_buffer disk) else pure tt
  found ← seek w disk cylinder
  status ←
      if found == ready
      then transfer w disk head sector direction (disk_buffer disk)
      else pure found
  if direction == read_block then copy (disk_buffer disk) block else pure tt
  set_v0 id systrap old_state status
  syscall w (verhogen (mutex disk))
  pure tt

-- diskIO. The second test asks whether the direction differs from one of two constants.
unfoldable pub disk_io : World → (block disk sector direction id : ℕ) → Cmd Support (Unit {0})
disk_io w block disk sector direction id = do
  if le_zero disk || ltb block 0x80000000 then me_irl w id else pure tt
  let head = rem32 sector 2
  let sector' = quot32 sector 2
  let sec = rem32 sector' 8
  let cylinder = quot32 sector' 8
  if not (direction == write_block) || not (direction == read_block)
      then exit panic
      else disk_transfer w block disk head sec cylinder direction id
