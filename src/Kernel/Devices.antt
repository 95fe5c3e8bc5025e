-- ===== src/Kernel/Devices.antt =====
-- getDeviceNumber of phase2/interrupts.c.
use kaya_os.Base.{ℕ, zero, suc, ◌+◌, ◌-◌, ◌≡◌, arith, ok, if◌then◌else◌}
use kaya_os.Kernel.{Kernel}
use kaya_os.Kernel.Interrupts.{is_on, device_loop, get_device_number}

device_loop-first : (k n m c : ℕ) → device_loop k n m c ≡ (if is_on m c then n else n + k)
unfolding device_loop
device_loop-first zero n m c = ground arith
device_loop-first (suc k) n m c = ground (arith, device_loop-first k (n + 1) m c)

-- getDeviceNumber gives 0 if the device 0 of the line has an interrupt pending and 8 otherwise,
-- whatever other devices of the line have, and writes nothing.
pub get_device_number-first :
    (line : ℕ) (s : Kernel)
    → get_device_number line s ≡ ok (if is_on (s.interrupt_dev (line - 3)) 1 then 0 else 8) s
unfolding get_device_number
get_device_number-first line s =
    ground (arith, device_loop-first 8 0 (s.interrupt_dev (line - 3)) 1)
