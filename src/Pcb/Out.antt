-- ===== src/Pcb/Out.antt =====
-- headProcQ, outProcQ and removeProcQ of pcb.c against the queue that a tail pointer stands for.
use kaya_os.Base.{
  ℕ, suc, ◌≡◌, inl, inr, refl, false, List, [], ◌∷◌, ◌++◌, arith, ◌==◌, ◌∈◌, ◌∉◌, IsDistinct,
  Bool-cases, has-append, All-append, All-mem, ok, Returns, returns, erase-middle, append-nil, ◌∙◌,
  split, snoc_cases, Returns-mono, IsDistinct-middle, IsDistinct-drop,
}
use kaya_os.Pcb.{
  null, max_proc, Pcbs, put, load, head_proc_q, unlink, out_tail, out_proc_q, remove_proc_q,
}
use kaya_os.Pcb.Access.{IsPcb}
use kaya_os.Pcb.Links.{
  next_of, Links, Links-parts, next-mem, Relinked, Relinked-refl, unlinked, Links-unlinked,
}
use kaya_os.Pcb.Queue.{IsRing, IsProcQ, empty, filled}
use kaya_os.Pcb.Remove.{
  unlink-ok, search-missed, ring-length, Removed, unlinked-Relinked, out-middle,
}

-- The tail leaves a ring of one block.
out-single : {h : Pcbs} (t : ℕ) → IsRing h t [] → Returns (Removed h t (t ∷ [])) (out_proc_q t t h)
unfolding out_proc_q out_tail load
out-single {h} t r =
    let run : out_proc_q t t h ≡ ok (t, null) h = ground (arith, r.valid.0, r.links.0) in
    rw run (
      returns (record {
        result = refl;
        queue = empty refl (ground arith);
        relinked = Relinked-refl (t ∷ []) h;
      }))

-- The tail leaves a longer ring: the block before it becomes the tail.
module _ {h : Pcbs} (front : List ℕ) (m t : ℕ) (r : IsRing h t (front ++ m ∷ [])) where
  abbrev last_two : List ℕ
  last_two = (front ++ m ∷ []) ++ t ∷ []

  to_last : Links h t front m
  to_last = (Links-parts h t front m [] t r.links).0

  to_tail : Links h m [] t
  to_tail = (Links-parts h t front m [] t r.links).1

  last-mem : m ∈ (front ++ m ∷ [])
  last-mem = ground (arith, has-append m front (m ∷ []))

  next-front : next_of h t ∈ (front ++ m ∷ [])
  next-front = next-mem h t front m to_last

  t-front : t ∉ front
  t-front = ground (arith, r.distinct.0, has-append t front (m ∷ []))

  t-ne-m : (t == m) ≡ false
  t-ne-m = ground (arith, r.distinct.0, has-append t front (m ∷ []))

  m-front : m ∉ front
  m-front = ground (arith, IsDistinct-middle front m [] r.distinct.1, append-nil front)

  front-IsDistinct : IsDistinct front
  front-IsDistinct = rw (← append-nil front) (IsDistinct-drop front m [] r.distinct.1)

  around : m ∉ (t ∷ front)
  around = ground (arith, m-front, t-ne-m)

  shorter-IsRing : IsRing (unlinked h t) m front
  shorter-IsRing =
      let (v, vm) = All-append IsPcb front (m ∷ []) r.valid.1 in
      record {
        distinct = (m-front, front-IsDistinct);
        valid = (vm.0, v);
        links =
            Links-unlinked h m [] t front m (t-front, front-IsDistinct) around around to_tail
              to_last;
      }

  unlink-tail : unlink t h ≡ ok tt (unlinked h t)
  unlink-tail =
      let vm = All-mem IsPcb _ _ r.valid.1 last-mem in
      unlink-ok h t r.valid.0 (All-mem IsPcb _ _ r.valid.1 next-front) (rw to_tail.1 vm)
        (rw to_tail.1 (ground (arith, t-ne-m)))

  tail-run : out_proc_q t t h ≡ ok (t, m) (unlinked h t)
  unfolding out_proc_q out_tail load put
  tail-run = ground (arith, r.valid.0, r.distinct.0, unlink-tail, next-front, t-ne-m, to_tail)

  out-longer : Returns (Removed h t last_two) (out_proc_q t t h)
  out-longer = rw tail-run (
      returns (record {
        result = refl;
        queue =
            filled front (erase-middle t (front ++ m ∷ []) [] r.distinct.0 ∙ append-nil _)
              shorter-IsRing;
        relinked =
            unlinked-Relinked h t last_two
              (ground (arith, next-front, has-append (next_of h t) (front ++ m ∷ []) (t ∷ [])))
              (ground (arith, to_tail, last-mem, has-append m (front ++ m ∷ []) (t ∷ [])));
      }))

out-ring :
    {h : Pcbs} (t p : ℕ) (front : List ℕ)
    → IsRing h t front
    → p ∈ (front ++ t ∷ [])
    → Returns (Removed h p (front ++ t ∷ [])) (out_proc_q t p h)
out-ring {h} t p front r i = elim (Bool-cases (t == p)) [
  | inl e ↦
      let same : t ≡ p = ground arith in
      rw (← same) (elim (snoc_cases front) [
        | inl n ↦ rw n (out-single t (rw n at r))
        | inr (xs, m, n) ↦ rw n (out-longer xs m t (rw n at r))
      ])
  | inr ne ↦
      let s = split p front (ground (arith, has-append p front (t ∷ []))) in
      rw s.parts (out-middle s.before p s.after (rw s.parts at r) s.first)
]

-- outProcQ of a block on the queue returns it, takes it out and keeps the others in order, and
-- changes only queue links of the queue's blocks.
pub out_proc_q-mem :
    {h : Pcbs} {tp : ℕ} {ps : List ℕ} (p : ℕ)
    → IsProcQ h tp ps
    → p ∈ ps
    → Returns (Removed h p ps) (out_proc_q tp p h)
out_proc_q-mem p (empty e n) i = absurd (ground (arith, i, n))
out_proc_q-mem {tp} p (filled front e r) i = rw e (out-ring tp p front r (rw e at i))

-- outProcQ of a block that is not on the queue returns NULL and changes nothing.
pub out_proc_q-not_mem :
    {h : Pcbs} {tp : ℕ} {ps : List ℕ} (p : ℕ)
    → IsProcQ h tp ps
    → p ∉ ps
    → out_proc_q tp p h ≡ ok (null, tp) h
unfolding out_proc_q head_proc_q load
out_proc_q-not_mem p (empty e n) o = ground arith
out_proc_q-not_mem {h} {tp} p (filled front e r) o =
    let o' : p ∉ (front ++ tp ∷ []) = rw e at o in
    let missed =
      search-missed (suc max_proc) h tp front p tp r.links r.valid.1
        (ground (arith, has-append p front (tp ∷ []))) r.distinct.0 (ring-length front r) in
    ground (arith, missed, r.valid.0, has-append p front (tp ∷ []))

abbrev pub head_or_null : List ℕ → ℕ
head_or_null [] = null
head_or_null (p ∷ ps) = p

-- headProcQ returns the first block of the queue, NULL if it is empty, and changes nothing.
pub head_proc_q-head :
    {h : Pcbs} {tp : ℕ} {ps : List ℕ} → IsProcQ h tp ps → head_proc_q tp h ≡ ok (head_or_null ps) h
unfolding head_proc_q load
head_proc_q-head (empty e n) = rw n (ground arith)
head_proc_q-head (filled [] e r) = rw e (ground (arith, r.valid.0, r.links))
head_proc_q-head (filled (x ∷ xs) e r) = rw e (ground (arith, r.valid.0, r.links.0))

-- removeProcQ of an empty queue returns NULL and changes nothing.
pub remove_proc_q-nil : {h : Pcbs} {tp : ℕ} → IsProcQ h tp [] → remove_proc_q tp h ≡ ok (null, tp) h
unfolding remove_proc_q
remove_proc_q-nil {h} {tp} q = ground (arith, head_proc_q-head q, out_proc_q-not_mem null q refl)

-- removeProcQ takes the first block off the queue.
pub remove_proc_q-cons :
    {h : Pcbs} {tp p : ℕ} {ps : List ℕ}
    → IsProcQ h tp (p ∷ ps)
    → Returns (λ r g. (r.0 ≡ p) × IsProcQ g r.1 ps × Relinked (p ∷ ps) h g) (remove_proc_q tp h)
unfolding remove_proc_q
remove_proc_q-cons {h} {tp} {p} {ps} q = rw (head_proc_q-head q) (
    Returns-mono (out_proc_q-mem p q (ground arith))
      λ r g done. (done.result, rw (← (erase-middle p [] ps refl)) done.queue, done.relinked))
