-- ===== src/Asl/Frame.antt =====
-- The active list of asl.c survives a change of the blocks that spares those that wait.
use kaya_os.Base.{ℕ, refl, List, arith, ◌∈◌, ◌∉◌, has, Bool-cases, inl, inr}
use kaya_os.Pcb.{Pcbs}
use kaya_os.Pcb.Aim.{Kept, Moved, Moved-Kept}
use kaya_os.Asl.{Asl, zero_node, max_node}
use kaya_os.Asl.Access.{with_pcbs}
use kaya_os.Asl.Chain.{Entry, IsAsl, Chain-frame, Stack-frame, next_of, waiting}
use kaya_os.Asl.Refill.{Told-frame}
use kaya_os.Asl.Blocking.{IsBlocking, Unblocked, Unblocked-out}

pub IsAsl-frame :
    {a : Asl} {es : List Entry} {fs : List ℕ} (h : Pcbs)
    → IsAsl a es fs
    → ((q : ℕ) → q ∈ waiting es → Kept h a.pcbs q)
    → IsAsl (with_pcbs a h) es fs
IsAsl-frame {a} {es} {fs} h i kept = record {
  head = i.head;
  chain =
      Chain-frame (with_pcbs a h) a (next_of a zero_node) es max_node (λ s m. refl)
        (λ q m. (kept q m).0) i.chain;
  top = i.top;
  sorted = i.sorted;
  stack = Stack-frame (with_pcbs a h) a a.free fs (λ s m. refl) i.stack;
  nodes = i.nodes;
  blocked = i.blocked;
  busy = i.busy;
  told = Told-frame h a.pcbs es (λ q m. (kept q m).1) i.told;
}

-- It is enough that the blocks that change, `xs`, wait for nothing.
pub IsBlocking-frame :
    {a : Asl} {m : ℕ → List ℕ} (xs : List ℕ) (h : Pcbs)
    → IsBlocking a m
    → ((q : ℕ) → q ∈ xs → Unblocked m q)
    → ((q : ℕ) → q ∉ xs → Kept h a.pcbs q)
    → IsBlocking (with_pcbs a h) m
IsBlocking-frame {a} {m} xs h b apart kept =
    let spared : (q : ℕ) → q ∈ waiting b.entries → Kept h a.pcbs q = λ q i.
      elim (Bool-cases (has q xs)) [
        | inl y ↦ absurd (ground (arith, Unblocked-out b q (apart q y)))
        | inr n ↦ kept q n
      ] in
    record {
      entries = b.entries;
      frees = b.frees;
      list = IsAsl-frame h b.list spared;
      total = b.total;
      queues = b.queues;
    }

pub IsBlocking-Moved :
    {a : Asl} {m : ℕ → List ℕ} (xs : List ℕ) (h : Pcbs)
    → IsBlocking a m
    → ((q : ℕ) → q ∈ xs → Unblocked m q)
    → Moved xs a.pcbs h
    → IsBlocking (with_pcbs a h) m
IsBlocking-Moved xs h b apart mv = IsBlocking-frame xs h b apart (Moved-Kept mv)
