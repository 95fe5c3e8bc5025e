-- ===== src/Asl/New.antt =====
-- insertBlocked of asl.c for a semaphore that gets a descriptor.
use kaya_os.Base.{
  ℕ, ◌<◌, ◌≡◌, refl, ap, ◌∙◌, false, Bool, List, [], ◌∷◌, ◌++◌, arith, ◌==◌, ◌∉◌, has-append, ok,
  pure, ◌>>◌, Returns, returns, Returns-bind, Returns-mono, IsDistinct, append-All, append_assoc,
}
use kaya_os.Pcb.{null, Pcbs, insert_proc_q}
use kaya_os.Pcb.Access.{IsPcb}
use kaya_os.Pcb.Queue.{empty, Inserted, insert_proc_q-append}
use kaya_os.Pcb.Frame.{IsProcQ-frame}
use kaya_os.Pcb.Aim.{
  aimed, aimed-Kept, aimed-SameLinks, aimed-hit, Relinked-Kept, Kept-trans, Moved, Moved-trans,
  aimed-Moved, Relinked-Moved,
}
use kaya_os.Asl.{
  Semd, Asl, zero_node, max_node, put, set_proc_q, set_sem_add, set_blocked_on, alloc_semd,
  new_queue, insert_blocked,
}
use kaya_os.Asl.Access.{load-ok, update-ok, with, with_pcbs, on_pcbs-Returns}
use kaya_os.Asl.Chain.{
  Entry, IsSemd, IsPlain, next_of, IsAsl, ats, ats-append, Chain-parts, Chain-IsPlain, waiting,
}
use kaya_os.Asl.Search.{last_at, Below}
use kaya_os.Asl.Head.{Beyond, absent, at, behind}
use kaya_os.Asl.Insert.{set_blocked_on-ok}
use kaya_os.Asl.Refill.{waiting-append}
use kaya_os.Asl.Splice.{apart-last, Stack-IsPlain}
use kaya_os.Asl.Grow.{fresh, Grown, Grown-IsAsl}

-- the first free descriptor, taken and cleared
abbrev taken : Asl → ℕ → Asl
taken a f =
    with
      (with (with (record a { free = next_of a f }) f (λ d. record d { next = null })) f
        (λ d. record d { sem_add = null }))
      f (λ d. record d { proc_q = null })

alloc_semd-ok : (a : Asl) (f : ℕ) → a.free ≡ f → IsPlain f → alloc_semd a ≡ ok f (taken a f)
unfolding alloc_semd
alloc_semd-ok a f e v =
    let n : (a.free == null) ≡ false = ground arith in
    let w : IsSemd f = ground arith in
    let w' : IsSemd a.free = ground arith in
    rw (n, load-ok a.free a w', e, update-ok f _ _ w, update-ok f _ _ w, update-ok f _ _ w)

taken-hit :
    (a : Asl) (f : ℕ) → (taken a f).cell f ≡ record { next = null; sem_add = null; proc_q = null }
unfolding put
taken-hit a f = ground arith

taken-miss : (a : Asl) (f x : ℕ) → (x == f) ≡ false → (taken a f).cell x ≡ a.cell x
unfolding put
taken-miss a f x ne = ground arith

-- the descriptor `f` behind `q`, with an empty queue
abbrev chained : Asl → (q f : ℕ) → Asl
chained b q f =
    with (with (with b f (λ d. record d { next = next_of b q })) q (λ d. record d { next = f })) f
      (λ d. record d { proc_q = null })

chained-hit :
    (b : Asl) (q f : ℕ)
    → (f == q) ≡ false
    → (next_of (chained b q f) f ≡ next_of b q) × (((chained b q f).cell f).proc_q ≡ null)
unfolding put
chained-hit b q f ne = ground arith

chained-prev :
    (b : Asl) (q f : ℕ) → (q == f) ≡ false → (chained b q f).cell q ≡ record (b.cell q) { next = f }
unfolding put
chained-prev b q f ne = ground arith

chained-miss :
    (b : Asl) (q f x : ℕ) → (x == f) ≡ false → (x == q) ≡ false → (chained b q f).cell x ≡ b.cell x
unfolding put
chained-miss b q f x ne ne' = ground arith

-- the new queue in the heap `h`, whose tail is `t`
abbrev opened : Asl → Pcbs → (f t s : ℕ) → Asl
opened c h f t s =
    with (with (with_pcbs c h) f (λ d. record d { proc_q = t })) f (λ d. record d { sem_add = s })

opened-hit :
    (c : Asl) (h : Pcbs) (f t s : ℕ)
    → (opened c h f t s).cell f ≡ record (c.cell f) { proc_q = t; sem_add = s }
unfolding put
opened-hit c h f t s = ground arith

opened-miss :
    (c : Asl) (h : Pcbs) (f t s x : ℕ) → (x == f) ≡ false → (opened c h f t s).cell x ≡ c.cell x
unfolding put
opened-miss c h f t s x ne = ground arith

-- What the new queue comes to.
record Opened (c : Asl) (f s p : ℕ) (r : Bool) (g : Asl) : Type 0 where
  result : r ≡ false
  tail : ℕ
  heap : Pcbs
  state : g ≡ opened c (aimed heap p s) f tail s
  inserted : Inserted c.pcbs p [] tail heap

store :
    (c : Asl) (f s p t : ℕ) (h : Pcbs)
    → IsSemd f
    → IsPcb p
    → Inserted c.pcbs p [] t h
    → Returns (Opened c f s p) (
        (set_proc_q f t >> (set_sem_add f s >> (set_blocked_on p s >> pure false))) (with_pcbs c h))
unfolding put
store c f s p t h v vp ins =
    rw (update-ok f _ (with_pcbs c h) v, update-ok f _ _ v, set_blocked_on-ok p s _ vp)
      (returns (record { result = refl; tail = t; heap = h; state = refl; inserted = ins }))

new_queue-Opened :
    (b : Asl) (q f s p : ℕ)
    → IsSemd q
    → IsSemd f
    → (f == q) ≡ false
    → IsPcb p
    → Returns (Opened (chained b q f) f s p) (new_queue q f s p b)
unfolding new_queue
new_queue-Opened b q f s p vq vf ne vp =
    let n = (chained-hit b q f ne).1 in
    rw
      (
        load-ok q b vq,
        update-ok f _ b vf,
        update-ok q _ _ vq,
        update-ok f _ _ vf,
        load-ok f _ vf,
        n,
      )
      (Returns-bind
        {k = λ t. set_proc_q f t >> (set_sem_add f s >> (set_blocked_on p s >> pure false))}
        (on_pcbs-Returns (insert_proc_q null p) (chained b q f)
          (insert_proc_q-append p (empty refl refl) vp refl))
        λ t g (h, e, ins). rw e (store (chained b q f) f s p t h vf vp ins))

-- A free descriptor is not the node before.
free_ne :
    {a : Asl} {f : ℕ} {fs : List ℕ} (xs ys : List Entry)
    → IsAsl a (xs ++ ys) (f ∷ fs)
    → (f == last_at zero_node xs) ≡ false
free_ne {a} {f} {fs} xs ys i =
    let nodes : IsDistinct (ats xs ++ (ats ys ++ f ∷ fs)) =
      rw (ats-append xs ys, append_assoc) at i.nodes in
    let c = Chain-parts a _ xs ys max_node i.chain in
    apart-last xs (ats ys ++ f ∷ fs)
      (append-All IsPlain (ats ys) (f ∷ fs) (Chain-IsPlain a _ ys _ c.2)
        (Stack-IsPlain a a.free (f ∷ fs) i.stack))
      nodes f (ground (arith, has-append f (ats ys) (f ∷ fs)))

Opened-Grown :
    {a g : Asl} {r : Bool} (xs ys : List Entry) (f s p : ℕ)
    → (f == last_at zero_node xs) ≡ false
    → p ∉ (waiting xs ++ waiting ys)
    → Opened (chained (taken a f) (last_at zero_node xs) f) f s p r g
    → Grown a g xs ys f s p
unfolding put
Opened-Grown {a} xs ys f s p ne out o =
    let prev = last_at zero_node xs in
    let b = taken a f in
    let c = chained b prev f in
    let h = aimed o.heap p s in
    let ne' : (prev == f) ≡ false = ground arith in
    let hit = opened-hit c h f o.tail s in
    let before = opened-miss c h f o.tail s prev ne' ∙ chained-prev b prev f ne' in
    let old = taken-miss a f prev ne' in
    rw o.state (record {
      new_free = refl;
      same_active = refl;
      cells = λ x n n'.
          opened-miss c h f o.tail s x n ∙ (chained-miss b prev f x n n' ∙ taken-miss a f x n);
      new_next = ap Semd.next before;
      body = (
        ap Semd.sem_add before ∙ ap Semd.sem_add old,
        ap Semd.proc_q before ∙ ap Semd.proc_q old,
      );
      onward = ap Semd.next hit ∙ ((chained-hit b prev f ne).0 ∙ ap Semd.next old);
      key = ap Semd.sem_add hit;
      queue = rw (ap Semd.proc_q hit) (
          IsProcQ-frame h o.heap o.tail (p ∷ []) (λ q _. aimed-SameLinks o.heap p s q)
            o.inserted.queue);
      kept = λ q m.
          let away : (q == p) ≡ false = ground arith in
          Kept-trans h o.heap a.pcbs q (aimed-Kept o.heap p s q away)
            (Relinked-Kept o.inserted.relinked q (ground arith));
      told = aimed-hit o.heap p s;
    })

Opened-Moved :
    {g : Asl} {f s p : ℕ} {r : Bool} (a : Asl) (q : ℕ)
    → Opened (chained (taken a f) q f) f s p r g
    → Moved (p ∷ []) a.pcbs g.pcbs
unfolding put
Opened-Moved {s = s} {p = p} a q o =
    rw o.state
      (Moved-trans (Relinked-Moved o.inserted.relinked) (aimed-Moved o.heap p s (ground arith)))

-- insertBlocked of a block that is not blocked, for a semaphore that is not on the list, takes the
-- first free descriptor, returns FALSE, and puts the semaphore in its place on the active list,
-- which stays sorted and well-formed, with the block as its only process. No other block
-- changes, and of that block only queue links and the semaphore.
pub insert_blocked-new :
    {a : Asl} {f : ℕ} {fs : List ℕ} (xs ys : List Entry) (s p : ℕ)
    → IsAsl a (xs ++ ys) (f ∷ fs)
    → 0 < s
    → (s == null) ≡ false
    → Below s xs
    → Beyond s ys
    → IsPcb p
    → p ∉ waiting (xs ++ ys)
    → Returns
        (λ r g. (r ≡ false) × IsAsl g (xs ++ fresh f s p ∷ ys) fs × Moved (p ∷ []) a.pcbs g.pcbs)
        (insert_blocked s p a)
unfolding insert_blocked
insert_blocked-new {a} {f} xs ys s p i low n lo hi vp out =
    let v = at s xs ys i n lo hi in
    let w = behind s xs ys i n lo hi in
    let ne = free_ne xs ys i in
    let some : (f == null) ≡ false = ground (arith, i.stack.1) in
    let vf : IsSemd f = ground (arith, i.stack.1) in
    let out' : p ∉ (waiting xs ++ waiting ys) = rw (waiting-append xs ys) at out in
    rw
      (
        absent s xs ys i n lo hi,
        load-ok _ a v,
        load-ok _ a w.0,
        w.1,
        alloc_semd-ok a f i.stack.0 i.stack.1,
        some,
      )
      (Returns-mono (new_queue-Opened (taken a f) (last_at zero_node xs) f s p v vf ne vp) λ r g o.
        (
          o.result,
          Grown-IsAsl xs ys f s p i (Opened-Grown xs ys f s p ne out' o) low lo hi out',
          Opened-Moved a _ o,
        ))
