-- ===== src/Support/Daemon.antt =====
-- delayDaemon of phase3/adl.c.
use kaya_os.Base.{
  ℕ, zero, suc, not, ◌&&◌, ◌==◌, if◌then◌else◌, panic, exit, out_of_fuel, Cmd, pure, ◌>>=◌, ◌>>◌,
}
use kaya_os.Base.Word.{le_signed, minus_one}
use kaya_os.Adl
use kaya_os.Support.{Support, World, private_sem, verhogen, wait_clock, syscall, stck, on_adl}

-- while((headDelayTime() <= theClock) && (headDelayTime() != FAILURE)): a process whose time has
-- come is woken up.
unfoldable pub wake_loop : World → ℕ → (clock : ℕ) → Cmd Support (Unit {0})
wake_loop w zero clock = λ _. out_of_fuel
wake_loop w (suc k) clock = do
  first ← on_adl Adl.head_delay_time
  if not (le_signed first clock && not (first == minus_one)) then pure tt else do
    id ← on_adl Adl.remove_delay
    if id == minus_one
        then exit panic
        else do syscall w (verhogen (private_sem id)); wake_loop w k clock

-- One round of the loop of delayDaemon, which never ends.
unfoldable pub daemon_round : World → ℕ → Cmd Support (Unit {0})
daemon_round w fuel = do syscall w wait_clock; clock ← stck w; wake_loop w fuel clock
