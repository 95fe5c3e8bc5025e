-- ===== src/Base/Word.antt =====
-- 32-bit words, as `int`, `unsigned int` and addresses share the registers. Signed tests read a
-- word as two's complement.
use Prim.Native.Nat.{ℕ, ◌+◌, ◌-◌, ◌*◌, ◌/◌, ◌%◌, ◌^◌}
use mathlib.Core.Bool.{Bool, not, ◌&&◌, ◌||◌}
use kaya_os.Base.Tests.{ltb, leb, ◌==◌, if◌then◌else◌}

abbrev pub word_mod : ℕ
word_mod = 2 ^ 32

abbrev pub add32 : ℕ → ℕ → ℕ
add32 a b = (a + b) % 2 ^ 32

abbrev pub sub32 : ℕ → ℕ → ℕ
sub32 a b = (a + 2 ^ 32 - b) % 2 ^ 32

-- `w < 0`, `w <= 0` and `w > 0` for an `int`.
abbrev pub is_neg : ℕ → Bool
is_neg w = leb (2 ^ 31) w

abbrev pub le_zero : ℕ → Bool
le_zero w = is_neg w || (w == 0)

-- FAILURE, -1
abbrev pub minus_one : ℕ
minus_one = 0xFFFFFFFF

-- `a < b` for two `int`s.
abbrev pub lt_signed : ℕ → ℕ → Bool
lt_signed a b = ltb ((a + 2 ^ 31) % 2 ^ 32) ((b + 2 ^ 31) % 2 ^ 32)

-- `w > 0` for an `int`.
abbrev pub is_pos : ℕ → Bool
is_pos w = ltb 0 w && ltb w (2 ^ 31)

-- `a <= b` for two `int`s.
abbrev pub le_signed : ℕ → ℕ → Bool
le_signed a b = not (lt_signed b a)

-- `w << k` and `w >> k`
abbrev pub shl : ℕ → ℕ → ℕ
shl w k = w * 2 ^ k % 2 ^ 32

abbrev pub shr : ℕ → ℕ → ℕ
shr w k = w / 2 ^ k

abbrev pub neg32 : ℕ → ℕ
neg32 w = (2 ^ 32 - w) % 2 ^ 32

-- `w / k` and `w % k` for an `int` and a positive constant, towards zero.
abbrev pub quot32 : ℕ → ℕ → ℕ
quot32 w k = if is_neg w then neg32 ((2 ^ 32 - w) / k) else w / k

abbrev pub rem32 : ℕ → ℕ → ℕ
rem32 w k = if is_neg w then neg32 ((2 ^ 32 - w) % k) else w % k

-- A `char`, 0 .. 255, as an `unsigned int`: it is signed.
abbrev pub char_word : ℕ → ℕ
char_word c = if ltb c 128 then c else c + 2 ^ 32 - 256
