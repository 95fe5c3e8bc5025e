-- ===== src/Asl/Head.antt =====
-- The paths of asl.c that only read: headBlocked, and the calls for an absent semaphore.
use kaya_os.Base.{ℕ, ◌<◌, ◌≡◌, refl, sym, true, false, List, [], ◌∷◌, ◌++◌, arith, ◌==◌, ok}
use mathlib.Core.Path.{subst}
use kaya_os.Pcb.{null, Pcbs, head_proc_q}
use kaya_os.Pcb.Queue.{empty}
use kaya_os.Pcb.Out.{head_or_null, head_proc_q-head}
use kaya_os.Asl.{
  Asl, zero_node, max_node, max_int, search_asl, alloc_semd, insert_blocked, remove_blocked,
  head_blocked,
}
use kaya_os.Asl.Access.{load-ok}
use kaya_os.Asl.Chain.{Entry, IsSemd, next_of, Chain, IsAsl, IsSorted}
use kaya_os.Asl.Search.{last_at, FromOn, Below, search_asl-last}

-- Behind `xs` the chain goes on to `ys`.
pub last_at-Chain :
    (a : Asl) (n : ℕ) (xs ys : List Entry) (y : ℕ)
    → Chain a (next_of a n) (xs ++ ys) y
    → Chain a (next_of a (last_at n xs)) ys y
last_at-Chain a n [] ys y c = c
last_at-Chain a n (e ∷ xs) ys y c = last_at-Chain a e.at xs ys y c.2

pub last_at-valid :
    (a : Asl) (n : ℕ) (xs ys : List Entry) (y : ℕ)
    → IsSemd n
    → Chain a (next_of a n) (xs ++ ys) y
    → IsSemd (last_at n xs)
last_at-valid a n [] ys y v c = v
last_at-valid a n (e ∷ xs) ys y v c = last_at-valid a e.at xs ys y (ground (arith, c.1.0)) c.2

-- The keys before an entry of the list are below its own.
pub IsSorted-Below :
    (low : ℕ) (xs : List Entry) (e : Entry) (ys : List Entry)
    → IsSorted low (xs ++ e ∷ ys)
    → (low < e.key) × Below e.key xs
IsSorted-Below low [] e ys s = (s.0, tt)
IsSorted-Below low (x ∷ xs) e ys s =
    let (lo, bs) = IsSorted-Below x.key xs e ys s.1 in (omega (arith, s.0), (lo, bs))

pub IsSorted-key :
    (low : ℕ) (xs : List Entry) (e : Entry) (ys : List Entry)
    → IsSorted low (xs ++ e ∷ ys)
    → e.key < max_int
IsSorted-key low [] e [] s = s.1
IsSorted-key low [] e (y ∷ ys) s = omega (arith, s.1.0, IsSorted-key e.key [] y ys s.1)
IsSorted-key low (x ∷ xs) e ys s = IsSorted-key x.key xs e ys s.1

-- the head of the first queue of `ys`
abbrev pub first_head : List Entry → ℕ
first_head [] = null
first_head (e ∷ ys) = head_or_null e.queue

empty_head : {h : Pcbs} {tp : ℕ} → tp ≡ null → head_proc_q tp h ≡ ok null h
empty_head n = head_proc_q-head (empty n refl)

-- headBlocked returns the head of the first queue whose semaphore has an address from `s` on, be
-- it the one asked for or not, and NULL if there is none; it writes nothing.
pub head_blocked-from :
    {a : Asl} {fs : List ℕ} (s : ℕ) (xs ys : List Entry)
    → IsAsl a (xs ++ ys) fs
    → (s == null) ≡ false
    → Below s xs
    → FromOn s ys
    → head_blocked s a ≡ ok (first_head ys) a
unfolding head_blocked
head_blocked-from {a} s xs [] i n lo hi =
    let c = last_at-Chain a zero_node xs [] max_node i.chain in
    let v = last_at-valid a zero_node xs [] max_node refl i.chain in
    rw (
      search_asl-last s xs [] i n lo hi,
      load-ok _ a v,
      c,
      load-ok max_node a refl,
      empty_head i.top.1,
    )
head_blocked-from {a} s xs (e ∷ ys) i n lo hi =
    let c = last_at-Chain a zero_node xs (e ∷ ys) max_node i.chain in
    let v = last_at-valid a zero_node xs (e ∷ ys) max_node refl i.chain in
    rw (
      search_asl-last s xs (e ∷ ys) i n lo hi,
      load-ok _ a v,
      c.0,
      load-ok e.at a (ground (arith, c.1.0)),
      head_proc_q-head c.1.2,
    )

-- The address `k` lies between the keys before `ys` and those of `ys`.
abbrev pub Beyond : ℕ → List Entry → Type 0
Beyond k [] = k < max_int
Beyond k (e ∷ ys) = k < e.key

pub Beyond-FromOn : (k : ℕ) (ys : List Entry) → Beyond k ys → FromOn k ys
Beyond-FromOn k [] b = omega arith
Beyond-FromOn k (e ∷ ys) b = omega arith

-- the node behind the place of an absent semaphore
pub next-Beyond :
    (a : Asl) (x k : ℕ) (ys : List Entry)
    → Chain a x ys max_node
    → (a.cell max_node).sem_add ≡ max_int
    → Beyond k ys
    → IsSemd x × (((a.cell x).sem_add == k) ≡ false)
next-Beyond a x k [] c t b =
    subst (λ z. IsSemd z × (((a.cell z).sem_add == k) ≡ false)) (sym c) (refl, rw t (ground arith))
next-Beyond a x k (e ∷ ys) c t b =
    subst (λ z. IsSemd z × (((a.cell z).sem_add == k) ≡ false)) (sym c.0)
      (ground (arith, c.1.0), rw c.1.1 (ground arith))

module _ {a : Asl} {fs : List ℕ} (s : ℕ) (xs ys : List Entry) (i : IsAsl a (xs ++ ys) fs)
    (n : (s == null) ≡ false) (lo : Below s xs) (hi : Beyond s ys) where
  pub absent : search_asl s a ≡ ok (last_at zero_node xs) a
  absent = search_asl-last s xs ys i n lo (Beyond-FromOn s ys hi)

  pub at : IsSemd (last_at zero_node xs)
  at = last_at-valid a zero_node xs ys max_node refl i.chain

  pub behind :
      IsSemd (next_of a (last_at zero_node xs))
      × (((a.cell (next_of a (last_at zero_node xs))).sem_add == s) ≡ false)
  behind = next-Beyond a _ s ys (last_at-Chain a zero_node xs ys max_node i.chain) i.top.0 hi

  -- removeBlocked of a semaphore without blocked processes returns NULL and changes nothing.
  pub remove_blocked-absent : remove_blocked s a ≡ ok null a
  unfolding remove_blocked
  remove_blocked-absent = rw (absent, load-ok _ a at, load-ok _ a behind.0, behind.1)

-- insertBlocked of a new semaphore returns TRUE and changes nothing when no descriptor is free.
pub insert_blocked-full :
    {a : Asl} (s p : ℕ) (xs ys : List Entry)
    → IsAsl a (xs ++ ys) []
    → (s == null) ≡ false
    → Below s xs
    → Beyond s ys
    → insert_blocked s p a ≡ ok true a
unfolding insert_blocked alloc_semd
insert_blocked-full {a} s p xs ys i n lo hi = rw (
  absent s xs ys i n lo hi,
  load-ok _ a (at s xs ys i n lo hi),
  load-ok _ a (behind s xs ys i n lo hi).0,
  (behind s xs ys i n lo hi).1,
  i.stack,
)

-- The search for a semaphore of the list stops before its descriptor.
pub search_asl-found :
    {a : Asl} {fs : List ℕ} (xs : List Entry) (e : Entry) (ys : List Entry)
    → IsAsl a (xs ++ e ∷ ys) fs
    → search_asl e.key a ≡ ok (last_at zero_node xs) a
search_asl-found xs e ys i =
    let small = IsSorted-key 0 xs e ys i.sorted in
    search_asl-last e.key xs (e ∷ ys) i (ground arith) (IsSorted-Below 0 xs e ys i.sorted).1
      (omega arith)
