-- ===== src/Asl/Insert.antt =====
-- insertBlocked of asl.c for a semaphore that already has blocked processes.
use kaya_os.Base.{
  ℕ, ◌≡◌, ◌≢◌, refl, ==-refl, ◌∙◌, false, List, [], ◌∷◌, ◌++◌, arith, ◌==◌, All, All-append,
  append-All, ◌∈◌, ◌∉◌, has-append, IsDistinct, IsDistinct-insert, IsDistinct-between, ok, Returns,
  returns, Returns-bind, Returns-mono, Bool, pure, ◌>>◌,
}
use kaya_os.Pcb.{Pcbs, insert_proc_q}
use kaya_os.Pcb.Access.{IsPcb, update-ok as pcb_update-ok}
use kaya_os.Pcb.Aim.{
  aimed, aimed-Kept, aimed-SameLinks, aimed-hit, Relinked-sem_add, Relinked-Kept, Kept-trans, Moved,
  Moved-trans, aimed-Moved, Relinked-Moved,
}
use kaya_os.Pcb.Queue.{IsProcQ, Inserted, insert_proc_q-append}
use kaya_os.Pcb.Frame.{IsProcQ-frame}
use kaya_os.Asl.{
  put, Asl, zero_node, max_node, set_blocked_on, set_proc_q, join_queue, insert_blocked,
}
use kaya_os.Asl.Access.{load-ok, update-ok, with_pcbs, on_pcbs-Returns}
use kaya_os.Asl.Chain.{Entry, IsSemd, IsAsl, waiting}
use kaya_os.Asl.Head.{last_at-Chain, last_at-valid, search_asl-found}
use kaya_os.Asl.Refill.{
  with_queue, refilled, Refilled, Refilled-IsAsl, refilled-Refilled, told-frame, waiting-append,
}

pub set_blocked_on-ok :
    (p k : ℕ) (a : Asl) → IsPcb p → set_blocked_on p k a ≡ ok tt (with_pcbs a (aimed a.pcbs p k))
set_blocked_on-ok p k a v = rw (pcb_update-ok p _ a.pcbs v) refl

-- What the write of the tail after a call of pcb.c leaves.
pub record Joined (a : Asl) (s k p : ℕ) (ps : List ℕ) (r : Bool) (g : Asl) : Type 0 where
  pub result : r ≡ false
  pub tail : ℕ
  pub heap : Pcbs
  pub state : g ≡ refilled a heap s tail
  pub inserted : Inserted (aimed a.pcbs p k) p ps tail heap

store_tail :
    (a : Asl) (s k p t : ℕ) (ps : List ℕ) (h : Pcbs)
    → IsSemd s
    → Inserted (aimed a.pcbs p k) p ps t h
    → Returns (Joined a s k p ps) ((set_proc_q s t >> pure false) (with_pcbs a h))
store_tail a s k p t ps h v ins =
    rw (update-ok s _ (with_pcbs a h) v)
      (returns (record { result = refl; tail = t; heap = h; state = refl; inserted = ins }))

join_queue-lem :
    (a : Asl) (s k p : ℕ) (ps : List ℕ)
    → IsSemd s
    → IsPcb p
    → IsProcQ a.pcbs (a.cell s).proc_q ps
    → p ∉ ps
    → Returns (Joined a s k p ps) (join_queue s k p a)
unfolding join_queue
join_queue-lem a s k p ps v vp q o =
    let q' = IsProcQ-frame (aimed a.pcbs p k) a.pcbs _ ps (λ q _. aimed-SameLinks a.pcbs p k q) q in
    rw (set_blocked_on-ok p k a vp, load-ok s _ v)
      (Returns-bind {k = λ t. set_proc_q s t >> pure false}
        (on_pcbs-Returns (insert_proc_q (a.cell s).proc_q p) (with_pcbs a (aimed a.pcbs p k))
          (insert_proc_q-append p q' vp o))
        λ t g (h, e, ins). rw e (store_tail a s k p t ps h v ins))

All-snoc : (P : ℕ → Type 0) (ps : List ℕ) (p : ℕ) → All P ps → P p → All P (ps ++ p ∷ [])
All-snoc P ps p h hp = append-All P ps (p ∷ []) h (hp, tt)

not_empty : (ps : List ℕ) (p : ℕ) → ps ++ p ∷ [] ≢ []
not_empty [] p = λ e. ground (arith, e)
not_empty (x ∷ ps) p = λ e. ground (arith, e)

-- Joining the queue of `e` refills it.
Joined-Refilled :
    {a g : Asl} {p : ℕ} {r : Bool} {fs : List ℕ} (xs : List Entry) (e : Entry) (ys : List Entry)
    → IsAsl a (xs ++ e ∷ ys) fs
    → p ∉ (waiting xs ++ (e.queue ++ waiting ys))
    → Joined a e.at e.key p e.queue r g
    → Refilled a g xs e ys (e.queue ++ p ∷ [])
Joined-Refilled {a} {p = p} xs e ys i o j =
    let d : IsDistinct (waiting xs ++ (e.queue ++ waiting ys)) =
      rw (waiting-append xs (e ∷ ys)) at i.blocked in
    let between : (q : ℕ) → q ∈ (waiting xs ++ waiting ys) → q ∉ e.queue =
      λ q m. IsDistinct-between (waiting xs) e.queue (waiting ys) q d m in
    let (tx, (te, ty)) = All-append _ xs (e ∷ ys) i.told in
    let other : (q : ℕ) → q ∈ (waiting xs ++ waiting ys) → (q == p) ≡ false = λ q m. ground (
      arith,
      has-append q (waiting xs) (waiting ys),
      has-append p (waiting xs) (e.queue ++ waiting ys),
      has-append p e.queue (waiting ys),
    ) in
    let re = j.inserted.relinked in
    rw j.state (
      refilled-Refilled a j.heap j.tail xs e ys (e.queue ++ p ∷ []) j.inserted.queue
        (λ q m.
          let ne : (q == p) ≡ false = other q m in
          Kept-trans j.heap (aimed a.pcbs p e.key) a.pcbs q
            (Relinked-Kept re q (ground (arith, between q m))) (aimed-Kept a.pcbs p e.key q ne))
        (IsDistinct-insert (waiting xs) e.queue p (waiting ys) d o) (not_empty e.queue p)
        (All-snoc _ e.queue p
          (told-frame j.heap a.pcbs e.key e.queue
            (λ q m.
              Relinked-sem_add re q
              ∙ (aimed-Kept a.pcbs p e.key q (
                  ground (
                    arith,
                    has-append p (waiting xs) (e.queue ++ waiting ys),
                    has-append p e.queue (waiting ys),
                  ))).1)
            te)
          (Relinked-sem_add re p ∙ aimed-hit a.pcbs p e.key)))

Joined-Moved :
    {a g : Asl} {s k p : ℕ} {ps : List ℕ} {r : Bool}
    → Joined a s k p ps r g
    → Moved (p ∷ ps) a.pcbs g.pcbs
unfolding put
Joined-Moved {a} {k = k} {p = p} j =
    rw j.state
      (Moved-trans (aimed-Moved a.pcbs p k (ground arith)) (Relinked-Moved j.inserted.relinked))

-- insertBlocked of a block that is not blocked, for a semaphore on the list, returns FALSE and
-- puts the block behind the semaphore's queue; the active list stays sorted and well-formed. Of the blocks, only queue links and
-- semaphores of that block and of its queue change.
pub insert_blocked-append :
    {a : Asl} {fs : List ℕ} (xs : List Entry) (e : Entry) (ys : List Entry) (p : ℕ)
    → IsAsl a (xs ++ e ∷ ys) fs
    → IsPcb p
    → p ∉ waiting (xs ++ e ∷ ys)
    → Returns
        (λ r g.
          (r ≡ false)
          × IsAsl g (xs ++ with_queue e (e.queue ++ p ∷ []) ∷ ys) fs
          × Moved (p ∷ e.queue) a.pcbs g.pcbs)
        (insert_blocked e.key p a)
unfolding insert_blocked
insert_blocked-append {a} xs e ys p i vp o =
    let c = last_at-Chain a zero_node xs (e ∷ ys) max_node i.chain in
    let v = last_at-valid a zero_node xs (e ∷ ys) max_node refl i.chain in
    let w : IsSemd e.at = ground (arith, c.1.0) in
    let o' : p ∉ (waiting xs ++ (e.queue ++ waiting ys)) = rw (waiting-append xs (e ∷ ys)) at o in
    let out : p ∉ e.queue = ground (
      arith,
      has-append p (waiting xs) (e.queue ++ waiting ys),
      has-append p e.queue (waiting ys),
    ) in
    rw (search_asl-found xs e ys i, load-ok _ a v, c.0, load-ok e.at a w, c.1.1, ==-refl e.key)
      (Returns-mono (join_queue-lem a e.at e.key p e.queue w vp c.1.2 out) λ r g j. (
        j.result,
        Refilled-IsAsl xs e ys (e.queue ++ p ∷ []) i (Joined-Refilled xs e ys i o' j),
        Joined-Moved j,
      ))
