-- ===== src/Asl/Init.antt =====
-- initASL of asl.c.
use kaya_os.Base.{
  ℕ, zero, suc, ◌+◌, ◌<◌, ◌≤◌, ◌≡◌, refl, ◌∙◌, false, [], arith, ◌==◌, All-mem, Returns, returns,
  Returns-bind, Returns-mono,
}
use kaya_os.Pcb.{null, max_proc}
use kaya_os.Pcb.FreeList.{table, table-out}
use kaya_os.Asl.{Semd, Asl, put, zero_node, max_node, max_int, free_semd, init_loop, init_asl}
use kaya_os.Asl.Access.{update-ok, with}
use kaya_os.Asl.Chain.{IsPlain, IsSemd, next_of, Stack, Stack-frame, IsAsl}
use kaya_os.Asl.Splice.{Stack-IsPlain}

-- the descriptor `s` on top of the free list
abbrev pushed : Asl → ℕ → Asl
pushed b s = record (with b s (λ d. record d { next = b.free })) { free = s }

pushed-hit : (b : Asl) (s : ℕ) → next_of (pushed b s) s ≡ b.free
unfolding put
pushed-hit b s = ground arith

pushed-miss : (b : Asl) (s x : ℕ) → (x == s) ≡ false → next_of (pushed b s) x ≡ next_of b x
unfolding put
pushed-miss b s x ne = ground arith

free_semd-Stack :
    (b : Asl) (n : ℕ)
    → n < max_proc
    → Stack b b.free (table n)
    → Returns (λ _ g. Stack g g.free (table (suc n)) × (g.pcbs ≡ b.pcbs)) (free_semd (n + 1) b)
unfolding free_semd put
free_semd-Stack b n lt s =
    let v : IsSemd (n + 1) = ground arith in
    let out = table-out n (n + 1) (omega arith) in
    rw (update-ok (n + 1) _ b v) (
      returns (
        (
          refl,
          (omega arith, omega arith),
          rw (pushed-hit b (n + 1)) (
              Stack-frame (pushed b (n + 1)) b b.free (table n)
                (λ x i. pushed-miss b (n + 1) x (ground arith)) s),
        ),
        refl,
      ))

add-one : (i : ℕ) → i + 1 ≡ suc i
add-one i = omega arith

init_loop-Stack :
    (k it : ℕ) (b : Asl)
    → it + k ≡ max_proc
    → Stack b b.free (table it)
    → Returns (λ _ g. Stack g g.free (table max_proc) × (g.pcbs ≡ b.pcbs)) (init_loop k it b)
unfolding init_loop
init_loop-Stack zero it b e s = let all : it ≡ max_proc = omega arith in returns (rw all at s, refl)
init_loop-Stack (suc k) it b e s =
    Returns-bind (free_semd-Stack b it (omega arith) s) λ _ g (done, same).
      Returns-mono (init_loop-Stack k (it + 1) g (omega arith) (rw (add-one it) done))
        λ _ h (d, m). (d, m ∙ same)

-- the two dummy nodes, and nothing between them
abbrev framed : Asl → Asl
framed b =
    let b1 = with b zero_node (λ d. record d { sem_add = 0 }) in
    let b2 = with b1 max_node (λ d. record d { sem_add = max_int }) in
    let b3 = with b2 zero_node (λ d. record d { proc_q = null }) in
    let b4 = with b3 max_node (λ d. record d { proc_q = null }) in
    let b5 = with b4 zero_node (λ d. record d { next = max_node }) in
    record b5 { active = zero_node }

put-miss : (b : Asl) (s x : ℕ) (d : Semd) → (x == s) ≡ false → next_of (put b s d) x ≡ next_of b x
unfolding put
put-miss b s x d ne = ground arith

framed-next : (b : Asl) (x : ℕ) → x ≤ 20 → next_of (framed b) x ≡ next_of b x
framed-next b x le =
    let zn : (x == zero_node) ≡ false = ground arith in
    let mn : (x == max_node) ≡ false = ground arith in
    put-miss _ zero_node x _ zn
    ∙ (put-miss _ max_node x _ mn
        ∙ (put-miss _ zero_node x _ zn
            ∙ (put-miss _ max_node x _ mn ∙ put-miss b zero_node x _ zn)))

framed-IsAsl : (b : Asl) → Stack b b.free (table max_proc) → IsAsl (framed b) [] (table max_proc)
unfolding put
framed-IsAsl b s =
    let plain = Stack-IsPlain b b.free (table max_proc) s in
    record {
      head = refl;
      chain = refl;
      top = (refl, refl);
      sorted = ground arith;
      stack =
          Stack-frame (framed b) b b.free (table max_proc)
            (λ x i. framed-next b x (All-mem IsPlain x (table max_proc) plain i).1) s;
      nodes = ground arith;
      blocked = tt;
      busy = tt;
      told = tt;
    }

-- initASL leaves no semaphore with blocked processes and all MAXPROC descriptors free, whatever
-- was there, and no process control block changes.
pub init_asl-IsAsl :
    (a : Asl) → Returns (λ _ g. IsAsl g [] (table max_proc) × (g.pcbs ≡ a.pcbs)) (init_asl a)
unfolding init_asl put
init_asl-IsAsl a =
    Returns-bind (init_loop-Stack max_proc 0 (record a { free = null; active = null }) refl refl)
      λ _ b (s, same).
        rw
          (
            update-ok zero_node _ b refl,
            update-ok max_node _ _ refl,
            update-ok zero_node _ _ refl,
            update-ok max_node _ _ refl,
            update-ok zero_node _ _ refl,
          )
          (returns (framed-IsAsl b s, same))
