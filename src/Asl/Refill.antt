-- ===== src/Asl/Refill.antt =====
-- The active list of asl.c when the queue of one semaphore changes.
use kaya_os.Base.{
  ℕ, ◌<◌, ◌≡◌, ◌≢◌, refl, ap, ◌∙◌, false, List, [], ◌∷◌, ◌++◌, append_assoc, arith, ◌==◌, All,
  All-append, append-All, ◌∈◌, has-append, IsDistinct, IsDistinct-middle,
}
use kaya_os.Pcb.{Pcbs}
use kaya_os.Pcb.Queue.{IsProcQ}
use kaya_os.Pcb.Aim.{Kept}
use kaya_os.Asl.Access.{with, with_pcbs}
use kaya_os.Asl.{put, Semd, Asl, zero_node, max_node}
use kaya_os.Asl.Chain.{
  Entry, next_of, Chain, Chain-append, Chain-parts, Chain-frame, Stack-frame, IsAsl, IsSorted, ats,
  ats-append, waiting,
}

-- `e`, with the processes `qs` blocked on it
abbrev pub with_queue : Entry → List ℕ → Entry
with_queue e qs = record e { queue = qs }

-- Each process blocked on a semaphore of the list says so.
abbrev pub Told : Pcbs → List Entry → Type 0
Told h es = All (λ e. All (λ p. (h.cell p).sem_add ≡ e.key) e.queue) es

pub waiting-append : (xs ys : List Entry) → waiting (xs ++ ys) ≡ waiting xs ++ waiting ys
waiting-append [] ys = refl
waiting-append (x ∷ xs) ys = rw (waiting-append xs ys, append_assoc) refl

pub told-frame :
    (g h : Pcbs) (k : ℕ) (ps : List ℕ)
    → ((q : ℕ) → q ∈ ps → (g.cell q).sem_add ≡ (h.cell q).sem_add)
    → All (λ p. (h.cell p).sem_add ≡ k) ps
    → All (λ p. (g.cell p).sem_add ≡ k) ps
told-frame g h k [] same t = tt
told-frame g h k (p ∷ ps) same t =
    (same p (ground arith) ∙ t.0, told-frame g h k ps (λ q i. same q (ground arith)) t.1)

pub Told-frame :
    (g h : Pcbs) (es : List Entry)
    → ((q : ℕ) → q ∈ waiting es → (g.cell q).sem_add ≡ (h.cell q).sem_add)
    → Told h es
    → Told g es
Told-frame g h [] same t = tt
Told-frame g h (e ∷ es) same t = (
  told-frame g h e.key e.queue (λ q i. same q (ground (arith, has-append q e.queue (waiting es))))
      t.0,
  Told-frame g h es (λ q i. same q (ground (arith, has-append q e.queue (waiting es)))) t.1,
)

pub IsSorted-with_queue :
    (low : ℕ) (xs : List Entry) (e : Entry) (qs : List ℕ) (ys : List Entry)
    → IsSorted low (xs ++ e ∷ ys)
    → IsSorted low (xs ++ with_queue e qs ∷ ys)
IsSorted-with_queue low [] e qs ys s = s
IsSorted-with_queue low (x ∷ xs) e qs ys s = (s.0, IsSorted-with_queue x.key xs e qs ys s.1)

-- The descriptors of the list, with that of `e` in the middle.
pub nodes-middle :
    {a : Asl} {fs : List ℕ} (xs : List Entry) (e : Entry) (ys : List Entry)
    → IsAsl a (xs ++ e ∷ ys) fs
    → IsDistinct (ats xs ++ e.at ∷ (ats ys ++ fs))
nodes-middle {a} {fs} xs e ys i = rw (ats-append xs (e ∷ ys), append_assoc) at i.nodes

-- `g` is `a` but for the queue of `e`, which is `qs`.
pub record Refilled (a g : Asl) (xs : List Entry) (e : Entry) (ys : List Entry) (qs : List ℕ)
    : Type 0 where
  pub same_free : g.free ≡ a.free
  pub same_active : g.active ≡ a.active
  pub cells : (s : ℕ) → (s == e.at) ≡ false → g.cell s ≡ a.cell s
  pub same_next : next_of g e.at ≡ next_of a e.at
  pub same_key : (g.cell e.at).sem_add ≡ (a.cell e.at).sem_add
  pub queue : IsProcQ g.pcbs (g.cell e.at).proc_q qs
  pub kept : (q : ℕ) → q ∈ (waiting xs ++ waiting ys) → Kept g.pcbs a.pcbs q
  pub apart : IsDistinct (waiting xs ++ (qs ++ waiting ys))
  pub some_left : qs ≢ []
  pub key : All (λ p. (g.pcbs.cell p).sem_add ≡ e.key) qs

module _ {a g : Asl} {fs : List ℕ} (xs : List Entry) (e : Entry) (ys : List Entry) (qs : List ℕ)
    (i : IsAsl a (xs ++ e ∷ ys) fs) (r : Refilled a g xs e ys qs) where
  away : (s : ℕ) → s ∈ (ats xs ++ (ats ys ++ fs)) → g.cell s ≡ a.cell s
  away s m =
      let d = IsDistinct-middle (ats xs) e.at (ats ys ++ fs) (nodes-middle xs e ys i) in
      r.cells s (ground arith)

  dummy : (s : ℕ) → (20 < s) → g.cell s ≡ a.cell s
  dummy s b =
      let (m, l, c) = Chain-parts a _ xs (e ∷ ys) max_node i.chain in
      r.cells s (ground (arith, c.1.0))

  chain : Chain g (next_of g zero_node) (xs ++ with_queue e qs ∷ ys) max_node
  chain =
      let (m, l, c) = Chain-parts a _ xs (e ∷ ys) max_node i.chain in
      let l' =
        Chain-frame g a _ xs m
          (λ s m. away s (ground (arith, has-append s (ats xs) (ats ys ++ fs))))
          (λ q m. (r.kept q (ground (arith, has-append q (waiting xs) (waiting ys)))).0) l in
      let r' =
        Chain-frame g a _ ys max_node
          (λ s m.
            away s (ground (arith, has-append s (ats xs) (ats ys ++ fs), has-append s (ats ys) fs)))
          (λ q m. (r.kept q (ground (arith, has-append q (waiting xs) (waiting ys)))).0) c.2 in
      rw (ap Semd.next (dummy zero_node (ground arith))) (
        Chain-append g _ xs m (with_queue e qs ∷ ys) max_node l'
          (c.0, (c.1.0, r.same_key ∙ c.1.1, r.queue), rw r.same_next r'))

  -- The list stays well-formed when the queue of one of its semaphores changes.
  pub Refilled-IsAsl : IsAsl g (xs ++ with_queue e qs ∷ ys) fs
  Refilled-IsAsl =
      let (tx, (te, ty)) = All-append _ xs (e ∷ ys) i.told in
      let (bx, (be, by)) = All-append _ xs (e ∷ ys) i.busy in
      let top = dummy max_node (ground arith) in
      let told : Told g.pcbs (xs ++ with_queue e qs ∷ ys) =
        append-All (λ e. All (λ p. (g.pcbs.cell p).sem_add ≡ e.key) e.queue) xs
          (with_queue e qs ∷ ys)
          (Told-frame g.pcbs a.pcbs xs
            (λ q m. (r.kept q (ground (arith, has-append q (waiting xs) (waiting ys)))).1) tx)
          (
            r.key,
            Told-frame g.pcbs a.pcbs ys
                (λ q m. (r.kept q (ground (arith, has-append q (waiting xs) (waiting ys)))).1) ty,
          ) in
      record {
        head = r.same_active ∙ i.head;
        chain = chain;
        top = (ap Semd.sem_add top ∙ i.top.0, ap Semd.proc_q top ∙ i.top.1);
        sorted = IsSorted-with_queue 0 xs e qs ys i.sorted;
        stack = rw r.same_free (
            Stack-frame g a a.free fs
              (λ s m. ap Semd.next (
                away s
                  (ground (arith, has-append s (ats xs) (ats ys ++ fs), has-append s (ats ys) fs))))
              i.stack);
        nodes = rw (ats-append xs (with_queue e qs ∷ ys), append_assoc) (nodes-middle xs e ys i);
        blocked = rw (waiting-append xs (with_queue e qs ∷ ys)) r.apart;
        busy = append-All (λ e. e.queue ≢ []) xs (with_queue e qs ∷ ys) bx (r.some_left, by);
        told = told;
      }

-- the state `a` with the heap `h` and the tail `t` in the descriptor `s`
abbrev pub refilled : Asl → Pcbs → ℕ → ℕ → Asl
refilled a h s t = with (with_pcbs a h) s (λ d. record d { proc_q = t })

pub refilled-hit :
    (a : Asl) (h : Pcbs) (s t : ℕ) → (refilled a h s t).cell s ≡ record (a.cell s) { proc_q = t }
unfolding put
refilled-hit a h s t = ground arith

pub refilled-miss :
    (a : Asl) (h : Pcbs) (s t q : ℕ) → (q == s) ≡ false → (refilled a h s t).cell q ≡ a.cell q
unfolding put
refilled-miss a h s t q ne = ground arith

pub refilled-Refilled :
    (a : Asl) (h : Pcbs) (t : ℕ) (xs : List Entry) (e : Entry) (ys : List Entry) (qs : List ℕ)
    → IsProcQ h t qs
    → ((q : ℕ) → q ∈ (waiting xs ++ waiting ys) → Kept h a.pcbs q)
    → IsDistinct (waiting xs ++ (qs ++ waiting ys))
    → qs ≢ []
    → All (λ p. (h.cell p).sem_add ≡ e.key) qs
    → Refilled a (refilled a h e.at t) xs e ys qs
unfolding put
refilled-Refilled a h t xs e ys qs queue kept apart some_left key =
    let hit = refilled-hit a h e.at t in
    record {
      same_free = refl;
      same_active = refl;
      cells = refilled-miss a h e.at t;
      same_next = ap Semd.next hit;
      same_key = ap Semd.sem_add hit;
      queue = rw (ap Semd.proc_q hit) queue;
      kept = kept;
      apart = apart;
      some_left = some_left;
      key = key;
    }
