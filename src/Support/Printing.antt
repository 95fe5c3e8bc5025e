-- ===== src/Support/Printing.antt =====
-- writePrinter and writeTerminal of phase3/vmIOsupport.c.
use kaya_os.Base.{
  ℕ, ◌+◌, ◌-◌, ◌≡◌, refl, ◌∙◌, true, ◌==◌, ==-refl, List, ◌∷◌, arith, Returns, returns,
}
use Prim.Native.Nat.{bit_and, bit_or}
use kaya_os.Base.Word.{char_word, shl}
use kaya_os.Kernel.Interrupts.{terminal_line}
use kaya_os.Support.{
  Support, World, Event, wait_io, mutex, syscall, interrupts, set_data0, set_command, is_user,
}
use kaya_os.Support.Pager.{ready}
use kaya_os.Support.Devices.{
  printer_line, printer_dev, terminal_dev, term_write_sem, rounds, print_char, send_char,
  set_transmit, write_printer, write_terminal,
}
use kaya_os.Support.Trace.{
  is_command_of, is_transmit_of, IsGuarded, printed, sent, off-even, IsPrivate,
}
use kaya_os.Support.Output.{Output, IsSending, out-Output}

-- The device answers each call to line `line` with the status `good`.
abbrev pub IsReady : World → (line id good : ℕ) → Type 0
IsReady w line id good =
    (t : List Event) → (bit_and (w.answer (wait_io line (id - 1) 0 ∷ t)) 0xFF == good) ≡ true

-- the printer and the terminal of a process
abbrev pub PrinterOutput : ℕ → Support → (addr n : ℕ) → Support → Type 0
PrinterOutput id s addr n =
    Output (is_command_of (printer_dev id)) (printer_dev id) (printed (printer_dev id)) char_word s
      addr n id

-- A character in a command of the transmitter.
abbrev pub transmitted : ℕ → ℕ
transmitted c = bit_or 2 (shl (char_word c) 8)

abbrev pub TerminalOutput : ℕ → Support → (addr n : ℕ) → Support → Type 0
TerminalOutput id s addr n =
    Output (is_transmit_of (terminal_dev id)) (term_write_sem id) (sent (terminal_dev id))
      transmitted s addr n id

print_char-IsSending :
    (w : World) (id : ℕ)
    → IsPrivate w
    → IsReady w printer_line id ready
    → IsSending
        (is_command_of (printer_dev id))
        (printer_dev id)
        (printed (printer_dev id))
        char_word
        (print_char w id)
        ready
unfolding print_char interrupts set_data0 set_command syscall
print_char-IsSending w id p r b base addr i s inv = rw (==-refl (printer_dev id)) (
    returns (
      r _,
      record {
        guarded = (
          λ e. absurd (ground (arith, e)),
          (
            λ e. absurd (ground (arith, e)),
            (λ e. (inv.locked, off-even s.status), (λ e. absurd (ground (arith, e)), inv.guarded)),
          ),
        );
        locked = inv.locked;
        out = rw (==-refl (printer_dev id), inv.out, inv.bytes (addr + i)) refl;
        bytes = λ a. p.bytes _ _ a ∙ inv.bytes a;
      },
    ))

send_char-IsSending :
    (w : World) (id : ℕ)
    → IsPrivate w
    → IsReady w terminal_line id 5
    → IsSending
        (is_transmit_of (terminal_dev id))
        (term_write_sem id)
        (sent (terminal_dev id))
        transmitted
        (send_char w id)
        5
unfolding send_char interrupts set_transmit syscall
send_char-IsSending w id p r b base addr i s inv = returns (
  r _,
  record {
    guarded = (
      λ e. absurd (ground (arith, e)),
      (
        λ e. absurd (ground (arith, e)),
        (λ e. (inv.locked, off-even s.status), (λ e. absurd (ground (arith, e)), inv.guarded)),
      ),
    );
    locked = inv.locked;
    out = rw (==-refl (terminal_dev id), inv.out, inv.bytes (addr + i)) refl;
    bytes = λ a. p.bytes _ _ a ∙ inv.bytes a;
  },
)

-- With no other process writing its memory and the printer ready after each character, writePrinter
-- sends the characters at `addr` to the printer, as many as the length says and in order, each
-- while it holds the printer's semaphore and interrupts are off. It releases the semaphore and
-- gives the caller the number of characters, 0 for a negative length.
pub write_printer-Output :
    (w : World) (addr len id : ℕ) (s : Support)
    → IsPrivate w
    → IsReady w printer_line id ready
    → is_user id ≡ true
    → IsGuarded (is_command_of (printer_dev id)) (mutex (printer_dev id)) s.trace
    → Returns (λ _. PrinterOutput id s addr (rounds len)) (write_printer w addr len id s)
unfolding write_printer
write_printer-Output w addr len id s p r u d =
    out-Output (is_command_of (printer_dev id)) (printer_dev id) (printed (printer_dev id))
      char_word (print_char w id) ready w addr (rounds len) id s (print_char-IsSending w id p r) p u
      (refl, refl, λ t. (refl, refl)) d

-- With no other process writing its memory and the terminal accepting each character, writeTerminal
-- sends the characters at `addr` to the transmitter, as many as the length says and in order, each
-- while it holds the transmitter's semaphore and interrupts are off. It releases the semaphore and
-- gives the caller the number of characters, 0 for a negative length.
pub write_terminal-Output :
    (w : World) (addr len id : ℕ) (s : Support)
    → IsPrivate w
    → IsReady w terminal_line id 5
    → is_user id ≡ true
    → IsGuarded (is_transmit_of (terminal_dev id)) (mutex (term_write_sem id)) s.trace
    → Returns (λ _. TerminalOutput id s addr (rounds len)) (write_terminal w addr len id s)
unfolding write_terminal
write_terminal-Output w addr len id s p r u d =
    out-Output (is_transmit_of (terminal_dev id)) (term_write_sem id) (sent (terminal_dev id))
      transmitted (send_char w id) 5 w addr (rounds len) id s (send_char-IsSending w id p r) p u
      (refl, refl, λ t. (refl, refl)) d
