-- ===== src/Pcb/Queue.antt =====
-- The process queues of pcb.c: what a tail pointer stands for, and insertProcQ against it.
use kaya_os.Base.{
  ℕ, ◌≡◌, refl, false, List, [], ◌∷◌, ◌++◌, arith, ◌==◌, All, ◌∈◌, ◌∉◌, IsDistinct, has-append,
  IsDistinct-append, append-All, All-mem, ok, Returns, returns,
}
use kaya_os.Pcb.{null, Pcbs, put, update, insert_proc_q}
use kaya_os.Pcb.Access.{IsPcb, load-ok, update-ok, IsPcb-ne_null}
use kaya_os.Pcb.Links.{
  next_of, with_next, with_prev, Links, Links-frame, Links-append, next-mem, Relinked,
  Relinked-refl, Relinked-next, Relinked-prev,
}

-- A circular run through `front` back to the tail.
pub record IsRing (h : Pcbs) (tp : ℕ) (front : List ℕ) : Type 0 where
  pub distinct : IsDistinct (tp ∷ front)
  pub valid : All IsPcb (tp ∷ front)
  pub links : Links h tp front tp

-- `tp` is the tail of the queue of the blocks `ps`, the head first.
pub data IsProcQ (h : Pcbs) (tp : ℕ) (ps : List ℕ) : Type 0 where
  empty : tp ≡ null → ps ≡ [] → IsProcQ h tp ps
  filled : (front : List ℕ) → ps ≡ front ++ tp ∷ [] → IsRing h tp front → IsProcQ h tp ps

-- the heap that insertProcQ leaves when the queue is not empty
abbrev inserted : Pcbs → ℕ → ℕ → Pcbs
inserted h t p =
    with_prev (with_next (with_next (with_prev h p t) p (next_of h t)) t p) (next_of h t) p

-- what insertProcQ reads between its writes
next-with_prev : (h : Pcbs) (p v q : ℕ) → next_of (with_prev h p v) q ≡ next_of h q
unfolding put
next-with_prev h p v q = ground arith

next-with_next-with_next :
    (h : Pcbs) (p t x : ℕ) → (t == p) ≡ false → next_of (with_next (with_next h p x) t p) p ≡ x
unfolding put
next-with_next-with_next h p t x ne = ground arith

insert-filled :
    (h : Pcbs) (t p : ℕ)
    → IsPcb t
    → IsPcb p
    → (t == p) ≡ false
    → IsPcb (next_of h t)
    → insert_proc_q t p h ≡ ok p (inserted h t p)
unfolding insert_proc_q
insert-filled h t p vt vp ne vn = rw (
  IsPcb-ne_null t vt,
  update-ok p _ h vp,
  load-ok t _ vt,
  next-with_prev h p t t,
  update-ok p _ _ vp,
  update-ok t _ _ vt,
  load-ok p _ vp,
  next-with_next-with_next (with_prev h p t) p t (next_of h t) ne,
  update-ok (next_of h t) _ _ vn,
)

inserted-Links :
    (h : Pcbs) (t p : ℕ) (front : List ℕ)
    → IsDistinct (t ∷ front)
    → p ∉ (t ∷ front)
    → Links h t front t
    → Links (inserted h t p) p (front ++ t ∷ []) p
unfolding put
inserted-Links h t p [] d out l = ground arith
inserted-Links h t p (x ∷ xs) d out l = (
  ground arith,
  ground arith,
  Links-append (inserted h t p) x xs t [] p
      (Links-frame (inserted h t p) h x xs t (λ q i. ground arith)
        (λ q i. ground (arith, has-append q xs (t ∷ []), has-append x xs (t ∷ []))) l.2)
      (ground arith),
)

inserted-Relinked :
    (h : Pcbs) (t p : ℕ) (ps : List ℕ)
    → t ∈ ps
    → next_of h t ∈ ps
    → Relinked (p ∷ ps) h (inserted h t p)
inserted-Relinked h t p ps it ix = Relinked-prev (next_of h t) p (ground arith) (
    Relinked-next t p (ground arith) (
      Relinked-next p (next_of h t) (ground arith)
        (Relinked-prev p t (ground arith) (Relinked-refl (p ∷ ps) h))))

-- What insertProcQ promises: the block `p` is the new tail, behind the queue.
pub record Inserted (h : Pcbs) (p : ℕ) (ps : List ℕ) (t : ℕ) (g : Pcbs) : Type 0 where
  pub tail : t ≡ p
  pub queue : IsProcQ g t (ps ++ p ∷ [])
  pub relinked : Relinked (p ∷ ps) h g

insert-ring :
    (h : Pcbs) (t p : ℕ) (front : List ℕ)
    → IsRing h t front
    → IsPcb p
    → p ∉ (front ++ t ∷ [])
    → Returns (Inserted h p (front ++ t ∷ [])) (insert_proc_q t p h)
insert-ring h t p front r vp out =
    let valid = append-All IsPcb front (t ∷ []) r.valid.1 (r.valid.0, tt) in
    let it : t ∈ (front ++ t ∷ []) = ground (arith, has-append t front (t ∷ [])) in
    let ix = next-mem h t front t r.links in
    let out' : p ∉ (t ∷ front) = ground (arith, has-append p front (t ∷ [])) in
    rw (insert-filled h t p r.valid.0 vp (ground arith) (All-mem IsPcb _ _ valid ix)) (
      returns (record {
        tail = refl;
        queue = filled (front ++ t ∷ []) refl (record {
          distinct = (
            out,
            IsDistinct-append front (t ∷ []) r.distinct.1 (refl, tt)
                (λ a i. ground (arith, r.distinct.0)),
          );
          valid = (vp, valid);
          links = inserted-Links h t p front r.distinct out' r.links;
        });
        relinked = inserted-Relinked h t p _ it ix;
      }))

insert-empty : (h : Pcbs) (p : ℕ) → IsPcb p → Returns (Inserted h p []) (insert_proc_q null p h)
unfolding insert_proc_q update put
insert-empty h p vp =
    let run : insert_proc_q null p h ≡ ok p (with_next (with_prev h p p) p p) = ground arith in
    rw run (
      returns (record {
        tail = refl;
        queue =
            filled [] refl
              (record { distinct = (refl, tt); valid = (vp, tt); links = ground arith });
        relinked =
            Relinked-next p p (ground arith)
              (Relinked-prev p p (ground arith) (Relinked-refl (p ∷ []) h));
      }))

-- insertProcQ puts a block that is not on the queue behind it, and changes only queue links of
-- that block and of the queue's.
pub insert_proc_q-append :
    {h : Pcbs} {tp : ℕ} {ps : List ℕ} (p : ℕ)
    → IsProcQ h tp ps
    → IsPcb p
    → p ∉ ps
    → Returns (Inserted h p ps) (insert_proc_q tp p h)
insert_proc_q-append {h} p (empty e n) vp out = rw (e, n) (insert-empty h p vp)
insert_proc_q-append {h} {tp} p (filled front e r) vp out =
    rw e (insert-ring h tp p front r vp (rw (← e) out))
