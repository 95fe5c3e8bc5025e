-- ===== src/Pcb.antt =====
-- phase1/pcb.c: process control blocks, their free list, process queues and child lists.
-- The blocks stand in a table of MAXPROC entries: `&array[i]` is the address `i + 1`, so that
-- the 0 of an uninitialised static pointer and NULL (all ones) name no block, and an access
-- through them is a fault. A function that updates `*tp` returns the new tail.
pub mod Access
pub mod Aim
pub mod Links
pub mod Queue
pub mod Remove
pub mod Out
pub mod Frame
pub mod FreeList
pub mod Children
pub mod Adopt
pub mod Orphan
pub mod Detach
pub mod OutChild
pub mod Tests
use kaya_os.Base.{
  ℕ, zero, suc, ◌+◌, Bool, not, ◌&&◌, ◌||◌, ltb, leb, ◌==◌, if◌then◌else◌, ok, fault, out_of_fuel,
  Cmd, pure, ◌>>=◌, ◌>>◌, gets, modify, ProcState,
}

abbrev pub null : ℕ
null = 0xFFFFFFFF

abbrev pub max_proc : ℕ
max_proc = 20

-- Indices of pcb_states.
abbrev pub new_state : ℕ
new_state = 0

abbrev pub old_state : ℕ
old_state = 1

abbrev pub sections : ℕ
sections = 3

-- `pcb_t`
pub record Pcb : Type 0 where
  pub next : ℕ
  pub prev : ℕ
  pub child : ℕ
  pub parent : ℕ
  pub prev_sib : ℕ
  pub next_sib : ℕ
  pub state : ProcState
  pub sem_add : ℕ
  pub time : ℕ
  pub states : ℕ → ℕ → ℕ

-- The table and `pcb_FREE_h`.
pub record Pcbs : Type 0 where
  pub cell : ℕ → Pcb
  pub free : ℕ

abbrev pub is_pcb : ℕ → Bool
is_pcb p = ltb 0 p && leb p max_proc

unfoldable pub put : Pcbs → ℕ → Pcb → Pcbs
put h p c = record h { cell = λ a. if a == p then c else h.cell a }

-- `*p`
unfoldable pub load : ℕ → Cmd Pcbs Pcb
load p h = if is_pcb p then ok (h.cell p) h else fault

-- `p->... = ...`
unfoldable pub update : ℕ → (Pcb → Pcb) → Cmd Pcbs (Unit {0})
unfolding put
update p f h = if is_pcb p then ok tt (put h p (f (h.cell p))) else fault

abbrev pub set_next : ℕ → ℕ → Cmd Pcbs (Unit {0})
set_next p q = update p (λ c. record c { next = q })

abbrev pub set_prev : ℕ → ℕ → Cmd Pcbs (Unit {0})
set_prev p q = update p (λ c. record c { prev = q })

abbrev pub set_child : ℕ → ℕ → Cmd Pcbs (Unit {0})
set_child p q = update p (λ c. record c { child = q })

abbrev pub set_parent : ℕ → ℕ → Cmd Pcbs (Unit {0})
set_parent p q = update p (λ c. record c { parent = q })

abbrev pub set_prev_sib : ℕ → ℕ → Cmd Pcbs (Unit {0})
set_prev_sib p q = update p (λ c. record c { prev_sib = q })

abbrev pub set_next_sib : ℕ → ℕ → Cmd Pcbs (Unit {0})
set_next_sib p q = update p (λ c. record c { next_sib = q })

abbrev pub mk_empty_proc_q : ℕ
mk_empty_proc_q = null

abbrev pub empty_proc_q : ℕ → Bool
empty_proc_q tp = tp == null

unfoldable pub free_pcb : ℕ → Cmd Pcbs (Unit {0})
free_pcb p = do f ← gets Pcbs.free; set_next p f; modify (λ h. record h { free = p })

-- The rounds of the loop of initPcbs from `it` on; round `it` frees &array[it].
unfoldable pub init_loop : ℕ → ℕ → Cmd Pcbs (Unit {0})
init_loop zero it = pure tt
init_loop (suc k) it = free_pcb (it + 1) >> init_loop k (it + 1)

unfoldable pub init_pcbs : Cmd Pcbs (Unit {0})
unfolding init_loop
init_pcbs = do modify (λ h. record h { free = null }); init_loop max_proc 0

-- The loop of allocPcb over the SECTIONS rows of pcb_states from row `i` on.
unfoldable pub clear_states : ℕ → ℕ → (ℕ → ℕ → ℕ) → ℕ → ℕ → ℕ
clear_states zero i t = t
clear_states (suc k) i t =
    clear_states k (i + 1)
      (λ a b. if a == i && (b == old_state || b == new_state) then null else t a b)

unfoldable pub alloc_pcb : Cmd Pcbs ℕ
unfolding clear_states
alloc_pcb = do
  p ← gets Pcbs.free
  if p == null then pure null else do
    c ← load p
    modify (λ h. record h { free = c.next })
    set_next p null
    set_prev p null
    set_child p null
    set_prev_sib p null
    set_next_sib p null
    update p (λ d. record d { sem_add = null })
    update p (λ d. record d { states = clear_states sections 0 d.states })
    pure p

unfoldable pub insert_proc_q : ℕ → ℕ → Cmd Pcbs ℕ
insert_proc_q tp p = if empty_proc_q tp then (do set_prev p p; set_next p p; pure p) else do
  set_prev p tp
  t ← load tp
  set_next p t.next
  set_next tp p
  c ← load p
  set_prev c.next p
  pure p

unfoldable pub head_proc_q : ℕ → Cmd Pcbs ℕ
head_proc_q tp = if empty_proc_q tp then pure null else do t ← load tp; pure t.next

-- while (searching != *tp && searching != p) searching = searching -> pcb_next;
unfoldable pub search_loop : ℕ → (searching tp p : ℕ) → Cmd Pcbs ℕ
search_loop zero searching tp p = λ _. out_of_fuel
search_loop (suc k) searching tp p =
    if not (searching == tp) && not (searching == p)
    then (do c ← load searching; search_loop k c.next tp p)
    else pure searching

-- p -> prev -> next = p -> next;  p -> next -> prev = p -> prev;
unfoldable pub unlink : ℕ → Cmd Pcbs (Unit {0})
unlink p = do c ← load p; set_next c.prev c.next; d ← load p; set_prev d.next d.prev

-- The branch of outProcQ in which `p` is the tail.
unfoldable pub out_tail : ℕ → Cmd Pcbs (ℕ × ℕ)
out_tail tp = do
  t ← load tp
  if t.next == tp
      then pure (tp, mk_empty_proc_q)
      else do unlink tp; t' ← load tp; pure (tp, t'.prev)

-- The result is the returned pointer and the new tail. The search takes MAXPROC + 1 rounds at
-- most: the blocks of a queue are distinct.
unfoldable pub out_proc_q : ℕ → ℕ → Cmd Pcbs (ℕ × ℕ)
out_proc_q tp p = if empty_proc_q tp then pure (null, tp) else if tp == p then out_tail tp else do
  first ← head_proc_q tp
  found ← search_loop (suc max_proc) first tp p
  if found == tp then pure (null, tp) else do unlink p; pure (p, tp)

unfoldable pub remove_proc_q : ℕ → Cmd Pcbs (ℕ × ℕ)
remove_proc_q tp = do first ← head_proc_q tp; out_proc_q tp first

unfoldable pub empty_child : ℕ → Cmd Pcbs Bool
empty_child p = do c ← load p; pure (c.child == null)

-- The two branches of insertChild.
unfoldable pub first_child : ℕ → ℕ → Cmd Pcbs (Unit {0})
first_child prnt p = do
  set_child prnt p
  set_parent p prnt
  set_next_sib p null
  set_prev_sib p null

unfoldable pub another_child : ℕ → ℕ → Cmd Pcbs (Unit {0})
another_child prnt p = do
  c ← load prnt
  set_prev_sib c.child p
  d ← load prnt
  set_next_sib p d.child
  set_parent p prnt
  set_child prnt p
  set_prev_sib p null

unfoldable pub insert_child : ℕ → ℕ → Cmd Pcbs (Unit {0})
insert_child prnt p = do
  none_yet ← empty_child prnt
  if none_yet then first_child prnt p else another_child prnt p

-- The four branches of outChild that take `child`, whose block is `c`, out of the list.
unfoldable pub out_only : ℕ → Pcb → Cmd Pcbs ℕ
out_only child c = do set_child c.parent null; set_parent child null; pure child

unfoldable pub out_first : ℕ → Pcb → Cmd Pcbs ℕ
out_first child c = do
  set_prev_sib c.next_sib null
  d ← load child
  set_child d.parent d.next_sib
  set_parent child null
  pure child

unfoldable pub out_middle : ℕ → Pcb → Cmd Pcbs ℕ
out_middle child c = do
  set_next_sib c.prev_sib c.next_sib
  d ← load child
  set_prev_sib d.next_sib d.prev_sib
  set_parent child null
  pure child

unfoldable pub out_last : ℕ → Pcb → Cmd Pcbs ℕ
out_last child c = do set_next_sib c.prev_sib null; set_parent child null; pure child

unfoldable pub out_child : ℕ → Cmd Pcbs ℕ
out_child child = if child == null then pure null else do
  c ← load child
  if c.parent == null then pure null else do
    prnt ← load c.parent
    if c.next_sib == null && c.prev_sib == null && child == prnt.child
        then out_only child c
        else if child == prnt.child
        then out_first child c
        else if not (c.next_sib == null) && not (c.prev_sib == null)
        then out_middle child c
        else if c.next_sib == null && not (c.prev_sib == null)
        then out_last child c
        else pure null

unfoldable pub remove_child : ℕ → Cmd Pcbs ℕ
remove_child prnt = do c ← load prnt; out_child c.child
