-- ===== src/Pcb/Remove.antt =====
-- headProcQ, outProcQ and removeProcQ of pcb.c against the queue that a tail pointer stands for.
use kaya_os.Base.{
  ℕ, zero, suc, ◌≤◌, ◌<◌, ◌≡◌, refl, false, List, [], ◌∷◌, ◌++◌, arith, ◌==◌, length, All, ◌∈◌, ◌∉◌,
  has-append, All-append, append-All, All-mem, ok, Returns, returns, erase, erase-middle,
  append_assoc, length-append, length-le_of_distinct, IsDistinct-drop, All-drop,
}
use kaya_os.Pcb.{max_proc, Pcbs, put, load, head_proc_q, search_loop, unlink, out_proc_q}
use kaya_os.Pcb.Access.{IsPcb, load-ok, update-ok}
use kaya_os.Pcb.Links.{
  next_of, prev_of, with_next, Links, Links-parts, next-mem, prev-mem, Relinked, Relinked-refl,
  Relinked-next, Relinked-prev, unlinked, Links-unlinked,
}
use kaya_os.Pcb.Queue.{IsRing, IsProcQ, filled}

-- the second read of `p` sees what the first did
links-with_next :
    (h : Pcbs) (a p q : ℕ)
    → (a == p) ≡ false
    → (next_of (with_next h a q) p ≡ next_of h p) × (prev_of (with_next h a q) p ≡ prev_of h p)
unfolding put
links-with_next h a p q ne = (ground arith, ground arith)

pub unlink-ok :
    (h : Pcbs) (p : ℕ)
    → IsPcb p
    → IsPcb (next_of h p)
    → IsPcb (prev_of h p)
    → (prev_of h p == p) ≡ false
    → unlink p h ≡ ok tt (unlinked h p)
unfolding unlink
unlink-ok h p vp vn vv ne =
    let (n, v) = links-with_next h (prev_of h p) p (next_of h p) ne in
    rw (
      load-ok p h vp,
      update-ok (prev_of h p) _ h vv,
      load-ok p _ vp,
      n,
      v,
      update-ok (next_of h p) _ _ vn,
    )

-- The search from `a`, whose run leads to `t`, stops at `p` if it is on the run, or at `t`.
search-found :
    (k : ℕ) (h : Pcbs) (a : ℕ) (xs : List ℕ) (p : ℕ) (ys : List ℕ) (t : ℕ)
    → Links h a (xs ++ p ∷ ys) t
    → All IsPcb (xs ++ p ∷ ys)
    → p ∉ xs
    → t ∉ (xs ++ p ∷ ys)
    → length xs < k
    → search_loop k (next_of h a) t p h ≡ ok p h
unfolding search_loop load
search-found zero h a xs p ys t l v np nt fuel = absurd (ground arith)
search-found (suc k) h a [] p ys t l v np nt fuel = ground arith
search-found (suc k) h a (x ∷ xs) p ys t l v np nt fuel =
    ground
      (arith, search-found k h x xs p ys t l.2 v.1 (ground arith) (ground arith) (ground arith))

pub search-missed :
    (k : ℕ) (h : Pcbs) (a : ℕ) (xs : List ℕ) (p t : ℕ)
    → Links h a xs t
    → All IsPcb xs
    → p ∉ xs
    → t ∉ xs
    → length xs < k
    → search_loop k (next_of h a) t p h ≡ ok t h
unfolding search_loop load
search-missed zero h a xs p t l v np nt fuel = absurd (ground arith)
search-missed (suc k) h a [] p t l v np nt fuel = ground arith
search-missed (suc k) h a (x ∷ xs) p t l v np nt fuel =
    ground (arith, search-missed k h x xs p t l.2 v.1 (ground arith) (ground arith) (ground arith))

All-IsPcb : (xs : List ℕ) → All IsPcb xs → All (λ x. (0 < x) × (x ≤ max_proc)) xs
All-IsPcb [] h = tt
All-IsPcb (x ∷ xs) h = ((ground arith, ground arith), All-IsPcb xs h.1)

-- A ring has at most MAXPROC blocks, so the search has rounds enough.
pub ring-length :
    {h : Pcbs} {t : ℕ} (front : List ℕ) → IsRing h t front → length front < suc max_proc
ring-length {t} front r =
    omega
      (arith, length-le_of_distinct max_proc (t ∷ front) r.distinct (All-IsPcb (t ∷ front) r.valid))

-- What outProcQ promises for a block on the queue: it is returned and taken out, and the others
-- stay in order.
pub record Removed (h : Pcbs) (p : ℕ) (ps : List ℕ) (r : ℕ × ℕ) (g : Pcbs) : Type 0 where
  pub result : r.0 ≡ p
  pub queue : IsProcQ g r.1 (erase p ps)
  pub relinked : Relinked ps h g

pub unlinked-Relinked :
    (h : Pcbs) (p : ℕ) (ps : List ℕ)
    → next_of h p ∈ ps
    → prev_of h p ∈ ps
    → Relinked ps h (unlinked h p)
unlinked-Relinked h p ps n v =
    Relinked-prev (next_of h p) (prev_of h p) n
      (Relinked-next (prev_of h p) (next_of h p) v (Relinked-refl ps h))

erase-middle-append :
    (p : ℕ) (xs ys zs : List ℕ) → p ∉ xs → erase p ((xs ++ p ∷ ys) ++ zs) ≡ (xs ++ ys) ++ zs
erase-middle-append p xs ys zs out =
    rw (append_assoc, append_assoc) (erase-middle p xs (ys ++ zs) out)

-- `p` is on the ring and is not its tail.
module _ {h : Pcbs} {t : ℕ} (xs : List ℕ) (p : ℕ) (ys : List ℕ)
    (r : IsRing h t (xs ++ p ∷ ys)) where
  abbrev pub queue : List ℕ
  queue = (xs ++ p ∷ ys) ++ t ∷ []

  before : Links h t xs p
  before = (Links-parts h t xs p ys t r.links).0

  behind : Links h p ys t
  behind = (Links-parts h t xs p ys t r.links).1

  next-queue : next_of h p ∈ queue
  next-queue = ground (
    arith,
    next-mem h p ys t behind,
    has-append (next_of h p) ys (t ∷ []),
    has-append (next_of h p) (xs ++ p ∷ ys) (t ∷ []),
    has-append (next_of h p) xs (p ∷ ys),
  )

  prev-queue : prev_of h p ∈ queue
  prev-queue = ground (
    arith,
    prev-mem h t xs p before,
    has-append (prev_of h p) (xs ++ p ∷ ys) (t ∷ []),
    has-append (prev_of h p) xs (p ∷ ys),
  )

  queue-valid : All IsPcb queue
  queue-valid = append-All IsPcb (xs ++ p ∷ ys) (t ∷ []) r.valid.1 (r.valid.0, tt)

  not_tail : (t == p) ≡ false
  not_tail = ground (arith, r.distinct.0, has-append t xs (p ∷ ys))

  unlink-middle : p ∉ xs → unlink p h ≡ ok tt (unlinked h p)
  unlink-middle out =
      unlink-ok h p (All-append IsPcb xs (p ∷ ys) r.valid.1).1.0
        (All-mem IsPcb _ _ queue-valid next-queue) (All-mem IsPcb _ _ queue-valid prev-queue)
        (ground (arith, prev-mem h t xs p before, not_tail))

  -- the rest of the ring is a ring
  unlinked-IsRing : IsRing (unlinked h p) t (xs ++ ys)
  unlinked-IsRing = record {
    distinct = (
      ground (arith, r.distinct.0, has-append t xs (p ∷ ys), has-append t xs ys),
      IsDistinct-drop xs p ys r.distinct.1,
    );
    valid = (r.valid.0, All-drop IsPcb xs p ys r.valid.1);
    links = Links-unlinked h t xs p ys t r.distinct.1 r.distinct.0 r.distinct.0 before behind;
  }

  search-middle : p ∉ xs → search_loop (suc max_proc) (next_of h t) t p h ≡ ok p h
  search-middle out =
      search-found (suc max_proc) h t xs p ys t r.links r.valid.1 out r.distinct.0
        (omega (arith, ring-length (xs ++ p ∷ ys) r, length-append xs (p ∷ ys)))

  pub out-middle : p ∉ xs → Returns (Removed h p queue) (out_proc_q t p h)
  unfolding out_proc_q head_proc_q load
  out-middle out =
      let run : out_proc_q t p h ≡ ok (p, t) (unlinked h p) =
        ground (arith, not_tail, r.valid.0, search-middle out, unlink-middle out) in
      rw run (
        returns (record {
          result = refl;
          queue = filled (xs ++ ys) (erase-middle-append p xs ys (t ∷ []) out) unlinked-IsRing;
          relinked = unlinked-Relinked h p queue next-queue prev-queue;
        }))
