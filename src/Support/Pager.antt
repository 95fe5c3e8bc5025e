-- ===== src/Support/Pager.antt =====
-- The pager of phase3/vmIOsupport.c: the choice of a frame, the backing store on disk 0, the
-- handler of page faults, and the end of a process.
use kaya_os.Base.{
  ℕ, zero, suc, ◌+◌, ◌-◌, ◌*◌, ◌%◌, Bool, true, false, not, ◌&&◌, ◌||◌, leb, ◌==◌, if◌then◌else◌,
  load_state, panic, exit, Cmd, pure, ◌>>=◌, ◌>>◌,
}
use Prim.Native.Nat.{bit_and, bit_or}
use kaya_os.Base.Word.{add32, sub32, shl, shr, minus_one}
use kaya_os.Support.{
  kuseg_size, swap_size, page_size, seg3_entry, user_entry, Memory, Support, World, swap_sem,
  master_sem, mutex, passeren, verhogen, wait_io, syscall, end_process, tlbclr, memory_of, change,
  get_user, set_pte, set_frame, set_command, set_data0, get_current_asid, interrupts,
}

-- DISK_READBLK, DISK_WRITEBLK, DISK_SEEKCYL and READY of const.h
abbrev pub read_block : ℕ
read_block = 3

abbrev pub write_block : ℕ
write_block = 4

abbrev pub seek_cylinder : ℕ
seek_cylinder = 2

abbrev pub ready : ℕ
ready = 1

abbrev pub disk_line : ℕ
disk_line = 3

abbrev pub is_transfer : ℕ → Bool
is_transfer c = c == write_block || c == read_block

-- spinTheBottle: the frames in turn.
unfoldable pub spin_the_bottle : Cmd Support ℕ
spin_the_bottle = do
  change (λ m. record m { next_frame = (m.next_frame + 1) % swap_size })
  memory_of Memory.next_frame

-- The seek to the cylinder on disk `disk`, and its status.
unfoldable pub seek : World → (disk cylinder : ℕ) → Cmd Support ℕ
seek w disk cylinder = do
  interrupts false
  set_command disk (bit_or (shl cylinder 8) seek_cylinder)
  status ← syscall w (wait_io disk_line disk 0)
  interrupts true
  pure status

-- The transfer of a block between `address` and the sector under the head.
unfoldable pub transfer : World → (disk head sector direction address : ℕ) → Cmd Support ℕ
transfer w disk head sector direction address = do
  interrupts false
  set_data0 disk address
  set_command disk (bit_or (bit_or (shl head 16) (shl sector 8)) direction)
  status ← syscall w (wait_io disk_line disk 0)
  interrupts true
  pure status

-- readWriteBacking; the last status is not given to the caller.
unfoldable pub read_write_backing :
    World → (cylinder sector head is_read address : ℕ) → Cmd Support (Unit {0})
read_write_backing w cylinder sector head is_read address =
    if not (is_transfer is_read) then exit panic else do
      syscall w (passeren (mutex 0))
      status ← seek w 0 cylinder
      if status == ready
          then (transfer w 0 head (sub32 sector 1) is_read address >>= λ _. pure tt)
          else pure tt
      syscall w (verhogen (mutex 0))
      pure tt

-- The loop of meIRL over the frames from `i` on, with the flag `kill`. nVALID is 0.
unfoldable pub release_frames : ℕ → (i id : ℕ) → Bool → Cmd Support Bool
release_frames zero i id kill = pure kill
release_frames (suc k) i id kill = do
  f ← memory_of (λ m. m.frame i)
  if f.asid == id
      then (do
        set_pte f.pte (λ e. record e { entry_lo = bit_or e.entry_lo 0 })
        set_frame i (λ g. record g { asid = minus_one })
        release_frames k (i + 1) id true)
      else release_frames k (i + 1) id kill

-- meIRL: the end of the process ID. It does not return.
unfoldable pub me_irl : World → ℕ → Cmd Support (Unit {0})
me_irl w id = do
  syscall w (passeren swap_sem)
  interrupts false
  kill ← release_frames swap_size 0 id false
  if kill then tlbclr else pure tt
  interrupts true
  syscall w (verhogen swap_sem)
  syscall w (verhogen master_sem)
  end_process

unfoldable pub vm_prgm_handler : World → Cmd Support (Unit {0})
vm_prgm_handler w = do id ← get_current_asid; me_irl w id

-- RAMTOP - (SWAPSIZE + 3) * PAGESIZE, and the address of a frame
abbrev pub swap_address : (ramtop i : ℕ) → ℕ
swap_address ramtop i = add32 (sub32 ramtop ((swap_size + 3) * page_size)) (i * page_size)

-- VALID | DIRTY, and GLOBAL
abbrev pub valid_dirty : ℕ → ℕ
valid_dirty a = bit_or (bit_or a 0x200) 0x400

abbrev pub valid_dirty_global : ℕ → ℕ
valid_dirty_global a = bit_or (valid_dirty a) 0x100

-- The page that is in the frame `i` goes back to disk; its entry loses all bits, since nVALID is 0.
unfoldable pub evict : World → (i address : ℕ) → Cmd Support (Unit {0})
evict w i address = do
  f ← memory_of (λ m. m.frame i)
  interrupts false
  set_pte f.pte (λ e. record e { entry_lo = bit_and e.entry_lo 0 })
  tlbclr
  interrupts true
  g ← memory_of (λ m. m.frame i)
  read_write_backing w g.page g.asid 0 write_block address

-- The frame `i` at `address` is the page `page` of `seg` of the process `id` from now on.
unfoldable pub install : (i address id seg page : ℕ) → Cmd Support (Unit {0})
install i address id seg page = do
  interrupts false
  set_frame i (λ f. record f { asid = id; seg = seg; page = page })
  if seg == 3
      then (do
        set_frame i (λ f. record f { pte = seg3_entry page })
        set_pte (seg3_entry page) (λ e. record e { entry_lo = valid_dirty_global address }))
      else (do
        set_frame i (λ f. record f { pte = user_entry id page })
        set_pte (user_entry id page) (λ e. record e { entry_lo = valid_dirty address }))
  tlbclr
  interrupts true

-- The segment and the page in ENTRYHI, and the page that the handler takes.
abbrev pub segment_of : ℕ → ℕ
segment_of hi = shr (bit_and hi 0xC0000000) 30

abbrev pub page_of : ℕ → ℕ
page_of hi = shr (bit_and hi 0x3FFFF000) 12

abbrev pub clamp_page : ℕ → ℕ
clamp_page p = if leb kuseg_size p then kuseg_size - 1 else p

-- The part of the handler between P and V of `swap`: the page comes into a frame.
unfoldable pub page_in : World → (id seg page : ℕ) → Cmd Support (Unit {0})
page_in w id seg page = do
  i ← spin_the_bottle
  top ← memory_of Memory.ramtop
  let address = swap_address top i
  f ← memory_of (λ m. m.frame i)
  if f.asid == minus_one then pure tt else evict w i address
  read_write_backing w page id 0 read_block address
  install i address id seg page

-- vmMemHandler. TLBTRAP is 0 and OLD is 1.
unfoldable pub vm_mem_handler : World → Cmd Support (Unit {0})
vm_mem_handler w = do
  id ← get_current_asid
  u ← get_user id
  let old = u.states 0 1
  let cause = shr (bit_and old.cause 0x7C) 2
  if not (cause == 2) && not (cause == 3) then me_irl w id else pure tt
  syscall w (passeren swap_sem)
  page_in w id (segment_of old.asid) (clamp_page (page_of old.asid))
  syscall w (verhogen swap_sem)
  u' ← get_user id
  exit (load_state (u'.states 0 1))
