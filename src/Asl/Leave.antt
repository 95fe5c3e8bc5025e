-- ===== src/Asl/Leave.antt =====
-- removeBlocked and outBlocked of asl.c for a process that is blocked.
use kaya_os.Base.{
  ℕ, ◌≡◌, refl, ap, ◌∙◌, true, false, List, [], ◌∷◌, ◌++◌, arith, if◌then◌else◌, ◌==◌, ==-refl, All,
  All-append, All-mem, ◌∈◌, erase, Cmd, pure, ◌>>◌, Returns, returns, Returns-bind, IsDistinct,
  IsDistinct-parts, IsDistinct-between, IsDistinct-erase_between, erase-out, All-erase,
}
use kaya_os.Pcb.{null, Pcbs, remove_proc_q, out_proc_q}
use kaya_os.Pcb.Access.{IsPcb, IsPcb-ne_null, load-ok as pcb_load-ok}
use kaya_os.Pcb.Links.{Relinked}
use kaya_os.Pcb.Queue.{IsProcQ}
use kaya_os.Pcb.Out.{out_proc_q-mem, remove_proc_q-cons}
use kaya_os.Pcb.Frame.{IsProcQ-frame, IsProcQ-IsPcb}
use kaya_os.Pcb.Aim.{
  aimed, Kept, aimed-Kept, aimed-SameLinks, aimed-hit, Relinked-sem_add, Relinked-Kept, Kept-trans,
  Moved, Moved-trans, aimed-Moved, Relinked-Moved,
}
use kaya_os.Asl.{
  put, Semd, Asl, zero_node, max_node, set_proc_q, set_blocked_on, drop_if_empty, remove_blocked,
  out_blocked,
}
use kaya_os.Asl.Access.{load-ok, update-ok, with_pcbs, on_pcbs-Returns}
use kaya_os.Asl.Chain.{Entry, IsSemd, next_of, Chain, Chain-parts, IsAsl, ats, waiting}
use kaya_os.Asl.Search.{last_at}
use kaya_os.Asl.Head.{last_at-Chain, last_at-valid, search_asl-found}
use kaya_os.Asl.Refill.{
  with_queue, Refilled-IsAsl, refilled, refilled-Refilled, refilled-hit, refilled-miss,
  waiting-append, told-frame, nodes-middle,
}
use kaya_os.Asl.Insert.{set_blocked_on-ok}
use kaya_os.Asl.Splice.{last_at-mem, Dropped-IsAsl}
use kaya_os.Asl.Drop.{
  IsProcQ-ne_null, IsProcQ-null, dropped, drop_if_empty-nil, drop_if_empty-cons, dropped-Dropped,
}

-- What stays of `e` on the active list when the processes `qs` are left.
abbrev pub left : Entry → List ℕ → List Entry
left e [] = []
left e (q ∷ qs) = with_queue e (q ∷ qs) ∷ []

-- The free descriptors then.
abbrev pub freed : Entry → List ℕ → List ℕ → List ℕ
freed e [] fs = e.at ∷ fs
freed e (q ∷ qs) fs = fs

-- The node before the descriptor of `e` is another one.
last_ne :
    {a : Asl} {fs : List ℕ} (xs : List Entry) (e : Entry) (ys : List Entry)
    → IsAsl a (xs ++ e ∷ ys) fs
    → (last_at zero_node xs == e.at) ≡ false
last_ne {a} {fs} xs e ys i =
    let (m, l, c) = Chain-parts a _ xs (e ∷ ys) max_node i.chain in
    let (dx, dr, apart) =
      IsDistinct-parts (ats xs) (e.at ∷ (ats ys ++ fs)) (nodes-middle xs e ys i) in
    let m = last_at-mem zero_node xs in ground (arith, c.1.0, apart (last_at zero_node xs))

-- The process `p` has left the queue of `e` in the heap `h`, whose tail is `t`.
module _ {a : Asl} {fs : List ℕ} (xs : List Entry) (e : Entry) (ys : List Entry) (p t : ℕ)
    (h : Pcbs) (i : IsAsl a (xs ++ e ∷ ys) fs) (m : p ∈ e.queue) (q : IsProcQ h t (erase p e.queue))
    (re : Relinked e.queue a.pcbs h) where
  blocked : IsDistinct (waiting xs ++ (e.queue ++ waiting ys))
  blocked = rw (waiting-append xs (e ∷ ys)) at i.blocked

  kept : (q : ℕ) → q ∈ (waiting xs ++ waiting ys) → Kept (aimed h p null) a.pcbs q
  kept q j =
      let o = IsDistinct-between (waiting xs) e.queue (waiting ys) q blocked j in
      Kept-trans (aimed h p null) h a.pcbs q (aimed-Kept h p null q (ground arith))
        (Relinked-Kept re q o)

  queue : IsProcQ (aimed h p null) t (erase p e.queue)
  queue = IsProcQ-frame (aimed h p null) h t _ (λ q _. aimed-SameLinks h p null q) q

  key : All (λ q. ((aimed h p null).cell q).sem_add ≡ e.key) (erase p e.queue)
  key =
      let (tx, (te, ty)) = All-append _ xs (e ∷ ys) i.told in
      let (dx, dr, apart) = IsDistinct-parts (waiting xs) _ blocked in
      let (de, dy, apart') = IsDistinct-parts e.queue (waiting ys) dr in
      let out = erase-out p e.queue de in
      told-frame (aimed h p null) a.pcbs e.key (erase p e.queue)
        (λ q j. (aimed-Kept h p null q (ground arith)).1 ∙ Relinked-sem_add re q)
        (All-erase _ p e.queue te)

  moved : Moved e.queue a.pcbs (aimed h p null)
  moved = Moved-trans (Relinked-Moved re) (aimed-Moved h p null m)

  -- What both calls promise when `qs` are left.
  abbrev pub Gone : List ℕ → ℕ → Asl → Type 0
  Gone qs r g =
      (r ≡ p)
      × IsAsl g (xs ++ (left e qs ++ ys)) (freed e qs fs)
      × ((g.pcbs.cell p).sem_add ≡ null)
      × Moved e.queue a.pcbs g.pcbs

  -- set_proc_q to the return, the same in both calls
  abbrev ending : Cmd Asl ℕ
  ending =
      set_proc_q e.at t
      >> (drop_if_empty (last_at zero_node xs) >> (set_blocked_on p null >> pure p))

  link : Chain a (next_of a (last_at zero_node xs)) (e ∷ ys) max_node
  link = last_at-Chain a zero_node xs (e ∷ ys) max_node i.chain

  prev_IsSemd : IsSemd (last_at zero_node xs)
  prev_IsSemd = last_at-valid a zero_node xs (e ∷ ys) max_node refl i.chain

  at_IsSemd : IsSemd e.at
  at_IsSemd = ground (arith, link.1.0)

  p_IsPcb : IsPcb p
  p_IsPcb = IsProcQ-IsPcb p link.1.2 m

  next_is : next_of (refilled a h e.at t) (last_at zero_node xs) ≡ e.at
  next_is = ap Semd.next (refilled-miss a h e.at t _ (last_ne xs e ys i)) ∙ link.0

  tail_is : ((refilled a h e.at t).cell e.at).proc_q ≡ t
  tail_is = ap Semd.proc_q (refilled-hit a h e.at t)

  stays :
      (q0 : ℕ) (qs : List ℕ)
      → erase p e.queue ≡ q0 ∷ qs
      → Returns (Gone (q0 ∷ qs)) (ending (with_pcbs a h))
  unfolding put
  stays q0 qs s =
      let some : ((refilled a h e.at t).cell e.at).proc_q == null ≡ false =
        rw tail_is (IsProcQ-ne_null (rw s at q)) in
      let new =
        refilled-Refilled a (aimed h p null) t xs e ys (q0 ∷ qs) (rw s at queue) kept
          (rw s at (IsDistinct-erase_between (waiting xs) p e.queue (waiting ys) blocked))
          (λ z. ground (arith, z)) (rw s at key) in
      let b = refilled a h e.at t in
      rw
        (
          update-ok e.at _ (with_pcbs a h) at_IsSemd,
          drop_if_empty-cons b (last_at zero_node xs) e.at prev_IsSemd at_IsSemd next_is some,
          set_blocked_on-ok p null b p_IsPcb,
        )
        (returns (refl, Refilled-IsAsl xs e ys (q0 ∷ qs) i new, aimed-hit h p null, moved))

  goes : erase p e.queue ≡ [] → Returns (Gone []) (ending (with_pcbs a h))
  unfolding put
  goes s =
      let none : (((refilled a h e.at t).cell e.at).proc_q == null) ≡ true =
        rw (tail_is, IsProcQ-null (rw s at q)) refl in
      let b = refilled a h e.at t in
      let g = dropped b (last_at zero_node xs) e.at in
      let new = dropped-Dropped a (aimed h p null) xs e ys t (last_ne xs e ys i) kept in
      rw
        (
          update-ok e.at _ (with_pcbs a h) at_IsSemd,
          drop_if_empty-nil b (last_at zero_node xs) e.at prev_IsSemd at_IsSemd next_is none,
          set_blocked_on-ok p null g p_IsPcb,
        )
        (returns (refl, Dropped-IsAsl xs e ys i new, aimed-hit h p null, moved))

  pub ending-Gone : Returns (Gone (erase p e.queue)) (ending (with_pcbs a h))
  ending-Gone = by_left (erase p e.queue) refl
    where
      by_left : (qs : List ℕ) → erase p e.queue ≡ qs → Returns (Gone qs) (ending (with_pcbs a h))
      by_left [] s = goes s
      by_left (q0 ∷ qs) s = stays q0 qs s

-- the end of removeBlocked and of outBlocked, from the write of the new tail on
abbrev remove_end : (s prev : ℕ) → ℕ × ℕ → Cmd Asl ℕ
remove_end s prev r = do
  set_proc_q s r.1
  drop_if_empty prev
  if r.0 == null then pure r.0 else do set_blocked_on r.0 null; pure r.0

abbrev out_end : (s prev : ℕ) → ℕ × ℕ → Cmd Asl ℕ
out_end s prev r = do set_proc_q s r.1; drop_if_empty prev; set_blocked_on r.0 null; pure r.0

-- removeBlocked of a semaphore on the list returns the first process blocked on it, which is
-- blocked no more, and takes it off the queue. A semaphore without processes leaves the list, and
-- its descriptor is the next one to be given out. Of the blocks, only queue
-- links and semaphores of that queue change.
pub remove_blocked-cons :
    {a : Asl} {fs : List ℕ} (xs : List Entry) (e : Entry) (ys : List Entry) (p : ℕ) (ps : List ℕ)
    → IsAsl a (xs ++ e ∷ ys) fs
    → e.queue ≡ p ∷ ps
    → Returns
        (λ r g.
          (r ≡ p)
          × IsAsl g (xs ++ (left e ps ++ ys)) (freed e ps fs)
          × ((g.pcbs.cell p).sem_add ≡ null)
          × Moved e.queue a.pcbs g.pcbs)
        (remove_blocked e.key a)
unfolding remove_blocked
remove_blocked-cons {a} {fs} xs e ys p ps i s =
    let c = last_at-Chain a zero_node xs (e ∷ ys) max_node i.chain in
    let v = last_at-valid a zero_node xs (e ∷ ys) max_node refl i.chain in
    let w : IsSemd e.at = ground (arith, c.1.0) in
    let m : p ∈ e.queue = rw s (ground arith) in
    let er : erase p e.queue ≡ ps = rw s (ground arith) in
    let ne = IsPcb-ne_null p (IsProcQ-IsPcb p c.1.2 m) in
    rw (search_asl-found xs e ys i, load-ok _ a v, c.0, load-ok e.at a w, c.1.1, ==-refl e.key)
      (Returns-bind {k = remove_end e.at (last_at zero_node xs)}
        (on_pcbs-Returns (remove_proc_q (a.cell e.at).proc_q) a
          (remove_proc_q-cons (rw s at c.1.2)))
        λ r g (h, eq, (r0, q, re)).
          rw (eq, r0, ne) (rw er at (ending-Gone xs e ys p r.1 h i m (rw er q) (rw s re))))

-- outBlocked of a process that is blocked takes it off the queue and returns it, blocked no more.
-- A semaphore without processes leaves the list, and its descriptor is the next to be given out.
-- Of the blocks, only queue links and semaphores of that queue change.
pub out_blocked-mem :
    {a : Asl} {fs : List ℕ} (xs : List Entry) (e : Entry) (ys : List Entry) (p : ℕ)
    → IsAsl a (xs ++ e ∷ ys) fs
    → p ∈ e.queue
    → Returns
        (λ r g.
          (r ≡ p)
          × IsAsl g (xs ++ (left e (erase p e.queue) ++ ys)) (freed e (erase p e.queue) fs)
          × ((g.pcbs.cell p).sem_add ≡ null)
          × Moved e.queue a.pcbs g.pcbs)
        (out_blocked p a)
unfolding out_blocked
out_blocked-mem {a} {fs} xs e ys p i m =
    let c = last_at-Chain a zero_node xs (e ∷ ys) max_node i.chain in
    let v = last_at-valid a zero_node xs (e ∷ ys) max_node refl i.chain in
    let w : IsSemd e.at = ground (arith, c.1.0) in
    let (tx, (te, ty)) = All-append _ xs (e ∷ ys) i.told in
    let tp = All-mem _ p e.queue te m in
    rw
      (
        pcb_load-ok p a.pcbs (IsProcQ-IsPcb p c.1.2 m),
        tp,
        search_asl-found xs e ys i,
        load-ok _ a v,
        c.0,
        load-ok e.at a w,
        c.1.1,
        ==-refl e.key,
      )
      (Returns-bind {k = out_end e.at (last_at zero_node xs)}
        (on_pcbs-Returns (out_proc_q (a.cell e.at).proc_q p) a (out_proc_q-mem p c.1.2 m))
        λ r g (h, eq, done).
          rw (eq, done.result) (ending-Gone xs e ys p r.1 h i m done.queue done.relinked))
