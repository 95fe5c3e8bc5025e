-- ===== src/Avsl/Init.antt =====
-- initAVSL of phase3/avsl.c.
use kaya_os.Base.{
  ℕ, zero, suc, ◌+◌, ◌≤◌, ◌≡◌, refl, false, ◌==◌, List, [], ◌∷◌, arith, length, All, ◌∉◌, Returns,
  returns, Returns-mono,
}
use mathlib.Core.Path.{subst}
use kaya_os.Pcb.{null, max_proc}
use kaya_os.Avsl.{Avsl, put, init_loop, init_avsl}
use kaya_os.Avsl.Ring.{IsNode, next_of, Stack, Stack-frame, IsAvsl, not_member}
use kaya_os.Avsl.Leave.{freed, free_v_sem-ok}

-- Nodes below `i + 1` are free, `fs` of them, and the ring is empty.
record Filled (fs : List ℕ) (i : ℕ) (a : Avsl) : Type 0 where
  state : IsAvsl a [] fs
  below : All (λ q. q ≤ i) fs

weaken : (fs : List ℕ) (i : ℕ) → All (λ q. q ≤ i) fs → All (λ q. q ≤ i + 1) fs
weaken [] i h = tt
weaken (f ∷ fs) i h = (omega (arith, h.0), weaken fs i h.1)

above : (fs : List ℕ) (i : ℕ) → All (λ q. q ≤ i) fs → (i + 1) ∉ fs
above [] i h = refl
above (f ∷ fs) i h = ground (arith, h.0, above fs i h.1)

freed-Filled :
    (fs : List ℕ) (i : ℕ) (a : Avsl)
    → IsNode (i + 1)
    → Filled fs i a
    → Filled ((i + 1) ∷ fs) (i + 1) (freed a (i + 1))
unfolding put
freed-Filled fs i a v f =
    let out = above fs i f.below in
    record {
      state = record {
        ring = f.state.ring;
        free = (
          refl,
          subst (λ y. Stack (next_of (freed a (i + 1))) y fs) (ground arith)
              (Stack-frame (next_of a) (next_of (freed a (i + 1))) a.free fs
                (λ q m.
                  let ne : (q == i + 1) ≡ false = not_member q (i + 1) fs m out in
                  ground (arith, ne))
                f.state.free),
        );
        distinct = (out, f.state.distinct);
        valid = (v, f.state.valid);
      };
      below = (omega arith, weaken fs i f.below);
    }

init_loop-Filled :
    (k i : ℕ) (fs : List ℕ) (a : Avsl)
    → i + k ≤ max_proc + 1
    → Filled fs i a
    → Returns
        (λ _ g. (gs : List ℕ) × IsAvsl g [] gs × (length gs ≡ length fs + k))
        (init_loop k i a)
unfolding init_loop
init_loop-Filled zero i fs a le f = returns (fs, f.state, omega arith)
init_loop-Filled (suc k) i fs a le f =
    let v : IsNode (i + 1) = ground (arith, le) in
    rw (free_v_sem-ok (i + 1) a v) (
      Returns-mono
        (init_loop-Filled k (i + 1) ((i + 1) ∷ fs) (freed a (i + 1)) (omega (arith, le))
          (freed-Filled fs i a v f))
        λ x g (gs, s, n). (gs, s, omega (arith, n)))

-- initAVSL leaves an empty ring and all MAXPROC + 1 nodes free, whatever was there.
pub init_avsl-IsAvsl :
    (a : Avsl)
    → Returns (λ _ g. (fs : List ℕ) × IsAvsl g [] fs × (length fs ≡ max_proc + 1)) (init_avsl a)
unfolding init_avsl
init_avsl-IsAvsl a =
    let start : Avsl = record a { head = null; free = null } in
    let f : Filled [] 0 start = record {
      state = record { ring = refl; free = refl; distinct = tt; valid = tt };
      below = tt;
    } in
    init_loop-Filled (max_proc + 1) 0 [] start (omega arith) f
