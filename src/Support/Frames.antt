-- ===== src/Support/Frames.antt =====
-- The turn of the frames, and the page tables that `test` builds against the fields that the page
-- fault handler reads.
use kaya_os.Base.{
  ℕ, zero, suc, ◌+◌, ◌-◌, ◌%◌, ◌<◌, ◌≡◌, ◌≢◌, refl, Bool, true, ◌&&◌, leb, ltb, ◌==◌, if◌then◌else◌,
  every, every_sound, and-parts, ==-sound, arith, ok, Cmd, ◌>>◌,
}
use Prim.Native.Nat.{bit_and, bit_or}
use kaya_os.Base.Word.{shl, shr}
use kaya_os.Support.{swap_size, kuseg_size, PteEntry, PageTable, Memory, Support, memory_of}
use kaya_os.Support.Pager.{spin_the_bottle, segment_of, page_of, clamp_page}
use kaya_os.Support.Start.{fill, user_entry_of, user_table_of, table_header}

-- the state with the turn at the frame `i`
abbrev pub turned : Support → ℕ → Support
turned s i = record s { memory = record s.memory { next_frame = i } }

-- `k` calls of spinTheBottle, and the last result
abbrev pub spins : ℕ → Cmd Support ℕ
spins zero = memory_of Memory.next_frame
spins (suc k) = spin_the_bottle >> spins k

spins-turn :
    (k : ℕ) (s : Support)
    → s.memory.next_frame < swap_size
    → spins k s
      ≡ ok
          ((s.memory.next_frame + k) % swap_size)
          (turned s ((s.memory.next_frame + k) % swap_size))
unfolding spin_the_bottle
spins-turn zero s lt =
    let same : (s.memory.next_frame + 0) % swap_size ≡ s.memory.next_frame = omega arith in
    rw same refl
spins-turn (suc k) s lt =
    let n = (s.memory.next_frame + 1) % swap_size in
    let same : (n + k) % swap_size ≡ (s.memory.next_frame + suc k) % swap_size = omega arith in
    rw (← same) (spins-turn k (turned s n) (omega arith))

-- The frames come in turn: the k-th call of spinTheBottle from a frame `n` on gives the frame
-- n + k modulo 16, which is a frame, and for k of 1 .. 15 it is not `n`.
pub spin_the_bottle-turn :
    (s : Support) (k : ℕ)
    → s.memory.next_frame < swap_size
    → (spins k s
        ≡ ok
            ((s.memory.next_frame + k) % swap_size)
            (turned s ((s.memory.next_frame + k) % swap_size)))
      × ((s.memory.next_frame + k) % swap_size < swap_size)
      × (0 < k → k < swap_size → (s.memory.next_frame + k) % swap_size ≢ s.memory.next_frame)
spin_the_bottle-turn s k lt = (spins-turn k s lt, omega arith, λ p q e. omega (arith, e))

pub fill-entry :
    (k j : ℕ) (f : ℕ → PteEntry) (t : PageTable) (i : ℕ)
    → (fill k j f t).entry i ≡ (if leb j i && ltb i (j + k) then f i else t.entry i)
unfolding fill
fill-entry zero j f t i = ground arith
fill-entry (suc k) j f t i =
    ground (
      arith,
      fill-entry k (j + 1) f (record t { entry = λ q. if q == j then f j else t.entry q }) i,
    )

-- The virtual address part of an entry, the fields of ENTRYHI that name the page `i` of `id`.
abbrev hi_of : (id i : ℕ) → ℕ
hi_of id i =
    if i == kuseg_size - 1
    then bit_or (shl 0xBFFFF 12) (shl id 6)
    else bit_or (shl (0x80000 + i) 12) (shl id 6)

abbrev names_page : (id i hi : ℕ) → Bool
names_page id i hi =
    (segment_of hi == 2) && ((clamp_page (page_of hi) == i) && (shr (bit_and hi 0xFC0) 6 == id))

decodes : every 64 (λ id. every kuseg_size (λ i. names_page id i (hi_of id i))) ≡ true
decodes = refl

user_table_of-hi :
    (id i : ℕ) (t : PageTable)
    → i < kuseg_size
    → ((user_table_of id t).entry i).entry_hi ≡ hi_of id i
unfolding user_table_of
user_table_of-hi id i t lt =
    let base = record t { header = table_header kuseg_size } in
    let at = fill-entry kuseg_size 0 (user_entry_of id) base in
    ground (arith, at i, at (kuseg_size - 1))

pub user_table_of-lo :
    (id i : ℕ) (t : PageTable) → i < kuseg_size → ((user_table_of id t).entry i).entry_lo ≡ 0x400
unfolding user_table_of
user_table_of-lo id i t lt =
    let base = record t { header = table_header kuseg_size } in
    let at = fill-entry kuseg_size 0 (user_entry_of id) base in
    ground (arith, at i, at (kuseg_size - 1))

-- In the page table that `test` builds for a process, the entry of each page has the virtual
-- address from which the page fault handler and getCurrentASID take back segment 2, the page and
-- the ID of the process, the page of the stack included, and it is dirty and not valid.
pub user_table_of-page :
    (id i : ℕ) (t : PageTable)
    → id < 64
    → i < kuseg_size
    → let e = (user_table_of id t).entry i in
      (segment_of e.entry_hi ≡ 2)
      × (clamp_page (page_of e.entry_hi) ≡ i)
      × (shr (bit_and e.entry_hi 0xFC0) 6 ≡ id)
      × (e.entry_lo ≡ 0x400)
user_table_of-page id i t lid li =
    let row =
      every_sound 64 (λ id. every kuseg_size (λ i. names_page id i (hi_of id i))) id decodes lid in
    let all = every_sound kuseg_size (λ i. names_page id i (hi_of id i)) i row li in
    let (seg, rest) = and-parts _ _ all in
    let (page, asid) = and-parts _ _ rest in
    rw (user_table_of-hi id i t li)
      (==-sound _ 2 seg, ==-sound _ i page, ==-sound _ id asid, user_table_of-lo id i t li)
