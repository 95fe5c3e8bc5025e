-- ===== src/Pcb/Frame.antt =====
-- A queue of pcb.c survives any change that spares the queue links of its blocks.
use kaya_os.Base.{ℕ, ◌≡◌, List, [], ◌∷◌, ◌++◌, arith, ◌∈◌, has-append, All-mem, append-All}
use kaya_os.Pcb.Access.{IsPcb}
use kaya_os.Pcb.{Pcbs}
use kaya_os.Pcb.Links.{next_of, prev_of, Links-frame}
use kaya_os.Pcb.Queue.{IsRing, IsProcQ, empty, filled}

abbrev pub SameLinks : Pcbs → Pcbs → ℕ → Type 0
SameLinks g h q = (next_of g q ≡ next_of h q) × (prev_of g q ≡ prev_of h q)

IsRing-frame :
    (g h : Pcbs) (t : ℕ) (front : List ℕ)
    → ((q : ℕ) → q ∈ (front ++ t ∷ []) → SameLinks g h q)
    → IsRing h t front
    → IsRing g t front
IsRing-frame g h t front same r = record {
  distinct = r.distinct;
  valid = r.valid;
  links =
      Links-frame g h t front t (λ q i. (same q (ground (arith, has-append q front (t ∷ [])))).0)
        (λ q i. (same q i).1) r.links;
}

pub IsProcQ-frame :
    (g h : Pcbs) (tp : ℕ) (ps : List ℕ)
    → ((q : ℕ) → q ∈ ps → SameLinks g h q)
    → IsProcQ h tp ps
    → IsProcQ g tp ps
IsProcQ-frame g h tp ps same (empty e n) = empty e n
IsProcQ-frame g h tp ps same (filled front e r) =
    filled front e (IsRing-frame g h tp front (λ q i. same q (rw e i)) r)

-- The blocks of a queue are entries of the table.
pub IsProcQ-IsPcb : {h : Pcbs} {tp : ℕ} {ps : List ℕ} (p : ℕ) → IsProcQ h tp ps → p ∈ ps → IsPcb p
IsProcQ-IsPcb p (empty e n) i = absurd (ground (arith, i, n))
IsProcQ-IsPcb {tp = tp} p (filled front e r) i =
    All-mem IsPcb p (front ++ tp ∷ []) (append-All IsPcb front (tp ∷ []) r.valid.1 (r.valid.0, tt))
      (rw e at i)
