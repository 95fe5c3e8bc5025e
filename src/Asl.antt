-- ===== src/Asl.antt =====
-- phase1/asl.c: semaphore descriptors, the active list sorted by semaphore address, and the
-- blocked processes. `&semdTable[i]` is the address `i + 1`; the two last entries are the dummy
-- nodes. A semaphore is known by the address of its value. The blocks of pcb.c are a part of the
-- state.
pub mod Access
pub mod Chain
pub mod Drop
pub mod Grow
pub mod Head
pub mod Init
pub mod Insert
pub mod Leave
pub mod New
pub mod Refill
pub mod Queues
pub mod Blocking
pub mod Waking
pub mod Apart
pub mod Frame
pub mod First
pub mod Search
pub mod Splice
mod Tests
use kaya_os.Base.{
  ℕ, zero, suc, ◌+◌, Bool, true, false, not, ◌&&◌, ltb, leb, ◌==◌, if◌then◌else◌, ok, fault,
  out_of_fuel, Cmd, pure, ◌>>=◌, ◌>>◌, gets, modify, lift,
}
use kaya_os.Pcb
use kaya_os.Pcb.{null, max_proc, Pcbs, mk_empty_proc_q, empty_proc_q}

-- MAXINT of const.h, above every semaphore address.
abbrev pub max_int : ℕ
max_int = 0xEFFFFFFF

-- `semd_t`
pub record Semd : Type 0 where
  pub next : ℕ
  pub sem_add : ℕ
  pub proc_q : ℕ

-- The table, `semdFree_h`, `semdActive_h`, and the state of pcb.c.
pub record Asl : Type 0 where
  pub pcbs : Pcbs
  pub cell : ℕ → Semd
  pub free : ℕ
  pub active : ℕ

-- &semdTable[MAXPROC] and &semdTable[MAXPROC + 1]
abbrev pub zero_node : ℕ
zero_node = 21

abbrev pub max_node : ℕ
max_node = 22

abbrev pub is_semd : ℕ → Bool
is_semd s = ltb 0 s && leb s max_node

unfoldable pub put : Asl → ℕ → Semd → Asl
put a s d = record a { cell = λ t. if t == s then d else a.cell t }

unfoldable pub load : ℕ → Cmd Asl Semd
load s a = if is_semd s then ok (a.cell s) a else fault

unfoldable pub update : ℕ → (Semd → Semd) → Cmd Asl (Unit {0})
unfolding put
update s f a = if is_semd s then ok tt (put a s (f (a.cell s))) else fault

-- A function of pcb.c, called from here.
abbrev pub on_pcbs : {A : Type 0} → Cmd Pcbs A → Cmd Asl A
on_pcbs = lift Asl.pcbs (λ t a. record a { pcbs = t })

abbrev pub set_next : ℕ → ℕ → Cmd Asl (Unit {0})
set_next s t = update s (λ d. record d { next = t })

abbrev pub set_sem_add : ℕ → ℕ → Cmd Asl (Unit {0})
set_sem_add s k = update s (λ d. record d { sem_add = k })

abbrev pub set_proc_q : ℕ → ℕ → Cmd Asl (Unit {0})
set_proc_q s q = update s (λ d. record d { proc_q = q })

-- p -> pcb_semAdd = ...
abbrev pub set_blocked_on : ℕ → ℕ → Cmd Asl (Unit {0})
set_blocked_on p k = on_pcbs (Pcb.update p (λ c. record c { sem_add = k }))

unfoldable pub alloc_semd : Cmd Asl ℕ
alloc_semd = do
  s ← gets Asl.free
  if s == null then pure null else do
    d ← load s
    modify (λ a. record a { free = d.next })
    set_next s null
    set_sem_add s null
    set_proc_q s mk_empty_proc_q
    pure s

unfoldable pub free_semd : ℕ → Cmd Asl (Unit {0})
free_semd s = do f ← gets Asl.free; set_next s f; modify (λ a. record a { free = s })

-- while (searching -> s_next -> s_semAdd < semAdd) searching = searching -> s_next;
unfoldable pub search_loop : ℕ → (searching sem_add : ℕ) → Cmd Asl ℕ
search_loop zero searching sem_add = λ _. out_of_fuel
search_loop (suc k) searching sem_add = do
  d ← load searching
  e ← load d.next
  if ltb e.sem_add sem_add then search_loop k d.next sem_add else pure searching

-- The active list has at most MAXPROC + 2 distinct nodes.
unfoldable pub search_asl : ℕ → Cmd Asl ℕ
search_asl sem_add = do
  searching ← gets Asl.active
  search_loop (suc max_node) searching (if sem_add == null then max_int else sem_add)

-- The semaphore has a descriptor, `s`.
unfoldable pub join_queue : (s sem_add p : ℕ) → Cmd Asl Bool
join_queue s sem_add p = do
  set_blocked_on p sem_add
  d ← load s
  t ← on_pcbs (Pcb.insert_proc_q d.proc_q p)
  set_proc_q s t
  pure false

-- The semaphore gets the descriptor `s`, behind `q` on the active list.
unfoldable pub new_queue : (q s sem_add p : ℕ) → Cmd Asl Bool
new_queue q s sem_add p = do
  d ← load q
  set_next s d.next
  set_next q s
  set_proc_q s mk_empty_proc_q
  e ← load s
  t ← on_pcbs (Pcb.insert_proc_q e.proc_q p)
  set_proc_q s t
  set_sem_add s sem_add
  set_blocked_on p sem_add
  pure false

-- The result is TRUE if there is no free descriptor.
unfoldable pub insert_blocked : ℕ → ℕ → Cmd Asl Bool
insert_blocked sem_add p = do
  q ← search_asl sem_add
  d ← load q
  e ← load d.next
  if e.sem_add == sem_add
      then join_queue d.next sem_add p
      else do s ← alloc_semd; if s == null then pure true else new_queue q s sem_add p

-- if (emptyProcQ(prev -> s_next -> s_procQ)): the descriptor behind `prev` goes to the free list.
unfoldable pub drop_if_empty : ℕ → Cmd Asl (Unit {0})
drop_if_empty prev = do
  d ← load prev
  e ← load d.next
  if not (empty_proc_q e.proc_q)
      then pure tt
      else do set_next prev e.next; free_semd d.next; set_sem_add d.next null

unfoldable pub remove_blocked : ℕ → Cmd Asl ℕ
remove_blocked sem_add = do
  prev ← search_asl sem_add
  d ← load prev
  e ← load d.next
  if not (e.sem_add == sem_add) then pure null else do
    (p, t) ← on_pcbs (Pcb.remove_proc_q e.proc_q)
    set_proc_q d.next t
    drop_if_empty prev
    if p == null then pure p else do set_blocked_on p null; pure p

-- The last write is a fault if `p` was not on the queue.
unfoldable pub out_blocked : ℕ → Cmd Asl ℕ
out_blocked p = do
  c ← on_pcbs (Pcb.load p)
  prev ← search_asl c.sem_add
  d ← load prev
  e ← load d.next
  if not (e.sem_add == c.sem_add) then pure null else do
    (r, t) ← on_pcbs (Pcb.out_proc_q e.proc_q p)
    set_proc_q d.next t
    drop_if_empty prev
    set_blocked_on r null
    pure r

unfoldable pub head_blocked : ℕ → Cmd Asl ℕ
head_blocked sem_add = do
  prev ← search_asl sem_add
  d ← load prev
  e ← load d.next
  on_pcbs (Pcb.head_proc_q e.proc_q)

-- The rounds of the loop of initASL from `i` on; round `i` frees &semdTable[i].
unfoldable pub init_loop : ℕ → ℕ → Cmd Asl (Unit {0})
init_loop zero i = pure tt
init_loop (suc k) i = free_semd (i + 1) >> init_loop k (i + 1)

unfoldable pub init_asl : Cmd Asl (Unit {0})
init_asl = do
  modify (λ a. record a { free = null; active = null })
  init_loop max_proc 0
  set_sem_add zero_node 0
  set_sem_add max_node max_int
  set_proc_q zero_node mk_empty_proc_q
  set_proc_q max_node mk_empty_proc_q
  set_next zero_node max_node
  modify (λ a. record a { active = zero_node })
