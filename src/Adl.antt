-- ===== src/Adl.antt =====
-- phase3/adl.c: the delayed processes, by wake-up time. `&delayTable[i]` is the address `i + 1`.
pub mod Delays
pub mod Trip
use kaya_os.Base.{
  ℕ, zero, suc, ◌+◌, Bool, true, false, ◌&&◌, ltb, leb, ◌==◌, if◌then◌else◌, ok, fault, out_of_fuel,
  Cmd, pure, ◌>>=◌, ◌>>◌, gets, modify,
}
use kaya_os.Base.Word.{minus_one, lt_signed}
use kaya_os.Pcb.{null, max_proc}

-- `adl_t`
pub record Delay : Type 0 where
  pub next : ℕ
  pub wake_time : ℕ
  pub asid : ℕ

-- The table, `delaydFree_h` and `activeDelayd_h`.
pub record Adl : Type 0 where
  pub cell : ℕ → Delay
  pub free : ℕ
  pub active : ℕ

abbrev pub is_delay : ℕ → Bool
is_delay d = ltb 0 d && leb d (max_proc + 1)

unfoldable pub put : Adl → ℕ → Delay → Adl
put a d c = record a { cell = λ t. if t == d then c else a.cell t }

unfoldable pub load : ℕ → Cmd Adl Delay
load d a = if is_delay d then ok (a.cell d) a else fault

unfoldable pub update : ℕ → (Delay → Delay) → Cmd Adl (Unit {0})
unfolding put
update d f a = if is_delay d then ok tt (put a d (f (a.cell d))) else fault

abbrev pub set_next : ℕ → ℕ → Cmd Adl (Unit {0})
set_next d n = update d (λ c. record c { next = n })

-- The signed comparison stands behind the test for the end of the list.
unfoldable pub search_loop : ℕ → (searching wake : ℕ) → Cmd Adl ℕ
search_loop zero searching wake = λ _. out_of_fuel
search_loop (suc k) searching wake = do
  c ← load searching
  if c.next == null then pure searching else do
    d ← load c.next
    if lt_signed d.wake_time wake then search_loop k c.next wake else pure searching

unfoldable pub search_delayd : ℕ → Cmd Adl ℕ
search_delayd wake = do a ← gets Adl.active; search_loop (max_proc + 2) a wake

unfoldable pub free_delayd : ℕ → Cmd Adl (Unit {0})
free_delayd delay = do
  f ← gets Adl.free
  if f == null
      then (do modify (λ a. record a { free = delay }); modify (λ a. record a { free = null }))
      else do set_next delay f; modify (λ a. record a { free = delay })

unfoldable pub init_loop : ℕ → ℕ → Cmd Adl (Unit {0})
init_loop zero i = pure tt
init_loop (suc k) i = free_delayd (i + 1) >> init_loop k (i + 1)

unfoldable pub init_adl : Cmd Adl (Unit {0})
init_adl = do modify (λ a. record a { free = null; active = null }); init_loop (max_proc + 1) 0

unfoldable pub head_delay_time : Cmd Adl ℕ
head_delay_time = do
  a ← gets Adl.active
  if a == null then pure minus_one else do d ← load a; pure d.wake_time

unfoldable pub alloc_delayd : Cmd Adl ℕ
alloc_delayd = do
  f ← gets Adl.free
  if f == null then pure null else do
    d ← load f
    modify (λ a. record a { free = if d.next == null then null else d.next })
    set_next f null
    pure f

-- The result is TRUE if there was a free node.
unfoldable pub insert_delay : ℕ → ℕ → Cmd Adl Bool
insert_delay wake_time id = do
  new ← alloc_delayd
  if new == null then pure false else do
    update new (λ d. record d { wake_time = wake_time })
    update new (λ d. record d { asid = id })
    a ← gets Adl.active
    if a == null
        then (do modify (λ s. record s { active = new }); set_next new null; pure true)
        else do
          delay ← search_delayd wake_time
          d ← load delay
          set_next new d.next
          set_next delay new
          pure true

unfoldable pub remove_delay : Cmd Adl ℕ
remove_delay = do
  temp ← gets Adl.active
  if temp == null then pure minus_one else do
    d ← load temp
    modify (λ a. record a { active = d.next })
    set_next temp null
    free_delayd temp
    pure d.asid
