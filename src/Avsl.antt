-- ===== src/Avsl.antt =====
-- phase3/avsl.c: the user processes that are blocked on virtual semaphores, in one ring.
-- `&vSemTable[i]` is the address `i + 1`.
pub mod Ring
pub mod Link
pub mod Enter
pub mod Leave
pub mod Search
pub mod Init
mod Tests
use kaya_os.Base.{
  ℕ, zero, suc, ◌+◌, Bool, true, false, ◌&&◌, ◌||◌, ltb, leb, ◌==◌, if◌then◌else◌, ok, fault,
  out_of_fuel, Cmd, pure, ◌>>=◌, ◌>>◌, gets, modify,
}
use kaya_os.Pcb.{null, max_proc}

-- `avsl_t`
pub record VSem : Type 0 where
  pub next : ℕ
  pub prev : ℕ
  pub sem : ℕ
  pub asid : ℕ

-- The table, `vSem_h` and `vSemFree_h`.
pub record Avsl : Type 0 where
  pub cell : ℕ → VSem
  pub head : ℕ
  pub free : ℕ

abbrev pub is_v_sem : ℕ → Bool
is_v_sem v = ltb 0 v && leb v (max_proc + 1)

unfoldable pub put : Avsl → ℕ → VSem → Avsl
put a v c = record a { cell = λ t. if t == v then c else a.cell t }

unfoldable pub load : ℕ → Cmd Avsl VSem
load v a = if is_v_sem v then ok (a.cell v) a else fault

unfoldable pub update : ℕ → (VSem → VSem) → Cmd Avsl (Unit {0})
unfolding put
update v f a = if is_v_sem v then ok tt (put a v (f (a.cell v))) else fault

abbrev pub set_next : ℕ → ℕ → Cmd Avsl (Unit {0})
set_next v n = update v (λ c. record c { next = n })

abbrev pub set_prev : ℕ → ℕ → Cmd Avsl (Unit {0})
set_prev v n = update v (λ c. record c { prev = n })

unfoldable pub free_v_sem : ℕ → Cmd Avsl (Unit {0})
free_v_sem v = do
  f ← gets Avsl.free
  if f == null
      then (do modify (λ a. record a { free = v }); set_next v null)
      else do set_next v f; modify (λ a. record a { free = v })

unfoldable pub alloc_v_sem : Cmd Avsl ℕ
alloc_v_sem = do
  f ← gets Avsl.free
  if f == null then pure null else do
    d ← load f
    modify (λ a. record a { free = if d.next == null then null else d.next })
    set_next f null
    set_prev f null
    update f (λ c. record c { sem = null })
    update f (λ c. record c { asid = null })
    pure f

unfoldable pub init_loop : ℕ → ℕ → Cmd Avsl (Unit {0})
init_loop zero i = pure tt
init_loop (suc k) i = free_v_sem (i + 1) >> init_loop k (i + 1)

unfoldable pub init_avsl : Cmd Avsl (Unit {0})
init_avsl = do modify (λ a. record a { head = null; free = null }); init_loop (max_proc + 1) 0

-- The new node goes in before the head, at the end of the ring.
unfoldable pub link_last : (head new : ℕ) → Cmd Avsl (Unit {0})
link_last head new = do
  set_next new head
  h ← load head
  set_next h.prev new
  h' ← load head
  set_prev new h'.prev
  set_prev head new

unfoldable pub v_insert_blocked : ℕ → ℕ → Cmd Avsl Bool
v_insert_blocked sem id = do
  new ← alloc_v_sem
  if new == null then pure false else do
    update new (λ c. record c { sem = sem })
    update new (λ c. record c { asid = id })
    h ← gets Avsl.head
    if h == null
        then (do
          modify (λ a. record a { head = new })
          set_next new new
          set_prev new new
          pure true)
        else do link_last h new; pure true

-- while (!f && currentSem != vSem_h) ...: the flag and the node at which the loop stops.
unfoldable pub search_loop : ℕ → (head sem : ℕ) → Bool → (current : ℕ) → Cmd Avsl (Bool × ℕ)
search_loop zero head sem f current = λ _. out_of_fuel
search_loop (suc k) head sem f current = if f || current == head then pure (f, current) else do
  c ← load current
  if c.sem == sem then search_loop k head sem true current else search_loop k head sem f c.next

-- Takes `current` out of the ring and gives its process.
unfoldable pub unlink : ℕ → Cmd Avsl ℕ
unlink current = do
  c ← load current
  set_next c.prev c.next
  d ← load current
  set_prev d.next d.prev
  free_v_sem current
  pure c.asid

-- The head is the only node.
unfoldable pub remove_single : (head : ℕ) → VSem → ℕ → Cmd Avsl ℕ
remove_single head h sem =
    if h.sem == sem
    then (do
      set_next head null
      set_prev head null
      free_v_sem head
      modify (λ a. record a { head = null })
      pure h.asid)
    else pure 0

-- FALSE is 0.
unfoldable pub v_remove_blocked : ℕ → Cmd Avsl ℕ
v_remove_blocked sem = do
  head ← gets Avsl.head
  if head == null then pure 0 else do
    h ← load head
    if h.next == head then remove_single head h sem else do
      (f, current) ← search_loop (max_proc + 3) head sem (h.sem == sem) h.next
      if f then unlink current else pure 0
