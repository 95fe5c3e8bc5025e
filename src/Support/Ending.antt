-- ===== src/Support/Ending.antt =====
-- meIRL and vmPrgmHandler of phase3/vmIOsupport.c, the end of a process.
use kaya_os.Base.{
  ℕ, zero, suc, ◌+◌, ◌≤◌, ◌<◌, ◌≡◌, refl, sym, ap, ◌∙◌, Bool, true, false, ◌&&◌, leb, ltb, ◌==◌,
  ==-refl, ==-sound, Bool-cases, inl, inr, if◌then◌else◌, ◌∷◌, arith, Exit, killed, Cmd, pure, ◌>>◌,
  Returns, returns, Returns-bind, Returns-mono, Leaves, leaves, Returns-Leaves,
}
use Prim.Native.Nat.{bit_or}
use mathlib.Core.Path.{subst}
use kaya_os.Base.Word.{minus_one}
use kaya_os.Kernel.{update}
use kaya_os.Support.{
  swap_size, PtePtr, no_entry, seg3_entry, user_entry, Frame, Support, World, swap_sem, master_sem,
  passeren, verhogen, syscall, end_process, interrupts, tlbclr, is_user,
}
use kaya_os.Support.Pager.{release_frames, me_irl}
use kaya_os.Support.Pool.{Pool, pool, lo_of, put_lo, put_lo-frame, IsEntry, IsPool, bit_or-zero}
use kaya_os.Support.Paging.{IsAlone, set_pte-Pooled}
use kaya_os.Support.Trace.{held}

-- The frame without its process.
abbrev pub vacated : (id : ℕ) → Frame → Frame
vacated id f = if f.asid == id then record f { asid = minus_one } else f

-- The frames from `i` on, `k` of them, are without the process, the others and all entries as
-- they were.
record Vacated (k i id : ℕ) (p p' : Pool) : Type 0 where
  frames :
      (j : ℕ)
      → p'.frame j ≡ (if leb i j && ltb j (i + k) then vacated id (p.frame j) else p.frame j)
  entries : (q : PtePtr) → lo_of p' q ≡ lo_of p q

-- `nVALID` is 0, and `| nVALID` writes back what is there.
put_lo-or : (p : Pool) (q r : PtePtr) → lo_of (put_lo p q (λ lo. bit_or lo 0)) r ≡ lo_of p r
unfolding put_lo
put_lo-or p no_entry r = refl
put_lo-or p (seg3_entry i) no_entry = refl
put_lo-or p (seg3_entry i) (seg3_entry j) =
    ground (arith, bit_or-zero ((p.kuseg3.entry i).entry_lo))
put_lo-or p (seg3_entry i) (user_entry b j) = refl
put_lo-or p (user_entry a i) no_entry = refl
put_lo-or p (user_entry a i) (seg3_entry j) = refl
put_lo-or p (user_entry a i) (user_entry b j) =
    ground (arith, bit_or-zero (((p.user a).pte.entry i).entry_lo))

lo_of-frames :
    (p : Pool) (f : ℕ → Frame) (q : PtePtr) → lo_of (record p { frame = f }) q ≡ lo_of p q
lo_of-frames p f no_entry = refl
lo_of-frames p f (seg3_entry i) = refl
lo_of-frames p f (user_entry id i) = refl

-- the frame `i` has been left by the process
abbrev left : ℕ → Pool → Pool
left i p = record p { frame = update p.frame i (record (p.frame i) { asid = minus_one }) }

left-Vacated :
    (k i id : ℕ) (p p' : Pool)
    → ((p.frame i).asid == id) ≡ true
    → Vacated k (i + 1) id (left i (put_lo p (p.frame i).pte (λ lo. bit_or lo 0))) p'
    → Vacated (suc k) i id p p'
left-Vacated k i id p p' h v =
    let f = λ (lo : ℕ). bit_or lo 0 in
    let q = (p.frame i).pte in
    let p1 = put_lo p q f in
    let same : p1.frame ≡ p.frame = put_lo-frame p q f in
    record {
      frames = λ j. elim (Bool-cases (j == i)) [
        | inl e ↦
            let yes : (leb i i && ltb i (i + suc k)) ≡ true = ground arith in
            let no : (leb (i + 1) i && ltb i ((i + 1) + k)) ≡ false = ground arith in
            rw (==-sound j i e, yes, h)
              ((rw (no, ==-refl i) at (v.frames i))
                ∙ ap (λ g. record (g i) { asid = minus_one }) same)
        | inr e ↦
            let range : (leb i j && ltb j (i + suc k)) ≡ (leb (i + 1) j && ltb j ((i + 1) + k)) =
              ground arith in
            rw range (
              (rw e at (v.frames j))
              ∙ ap (λ g. if leb (i + 1) j && ltb j ((i + 1) + k) then vacated id (g j) else g j)
                  same)
      ];
      entries = λ r. v.entries r ∙ lo_of-frames p1 (left i p1).frame r ∙ put_lo-or p q r;
    }

-- the frame `i` is of another process
kept-Vacated :
    (k i id : ℕ) (p p' : Pool)
    → ((p.frame i).asid == id) ≡ false
    → Vacated k (i + 1) id p p'
    → Vacated (suc k) i id p p'
kept-Vacated k i id p p' h v = record {
  frames = λ j. elim (Bool-cases (j == i)) [
    | inl e ↦
        let no : (leb (i + 1) i && ltb i ((i + 1) + k)) ≡ false = ground arith in
        let yes : (leb i i && ltb i (i + suc k)) ≡ true = ground arith in
        rw (==-sound j i e, yes, h) (rw no at (v.frames i))
    | inr e ↦
        let range : (leb i j && ltb j (i + suc k)) ≡ (leb (i + 1) j && ltb j ((i + 1) + k)) =
          ground arith in
        rw range (v.frames j)
  ];
  entries = v.entries;
}

release_frames-Vacated :
    (k i id : ℕ) (kill : Bool) (s : Support)
    → ((j : ℕ)
        → i ≤ j
        → j < i + k
        → ((s.memory.frame j).asid == id) ≡ true
        → IsEntry (s.memory.frame j).pte)
    → Returns (λ _ g. Vacated k i id (pool s.memory) (pool g.memory)) (release_frames k i id kill s)
unfolding release_frames
release_frames-Vacated zero i id kill s v = returns (record {
  frames = λ j. let no : (leb i j && ltb j (i + 0)) ≡ false = ground arith in rw no refl;
  entries = λ q. refl;
})
release_frames-Vacated (suc k) i id kill s v = elim (Bool-cases ((s.memory.frame i).asid == id)) [
  | inl h ↦ rw h (
      Returns-bind
        (set_pte-Pooled (s.memory.frame i).pte (λ lo. bit_or lo 0) s
          (v i (omega arith) (omega arith) h))
        λ x g e.
          let same : g.memory.frame ≡ s.memory.frame =
            ap Pool.frame e
            ∙ put_lo-frame (pool s.memory) (s.memory.frame i).pte (λ lo. bit_or lo 0) in
          Returns-mono
            (release_frames-Vacated k (i + 1) id true _ λ j le lt u.
              let ne : (j == i) ≡ false = ground (arith, le) in
              let u' : ((s.memory.frame j).asid == id) ≡ true = (rw (ne, same) at u) in
              rw (ne, same) (v j (omega (arith, le)) (omega (arith, lt)) u'))
            λ y r vac.
              let vac' : Vacated k (i + 1) id (left i (pool g.memory)) (pool r.memory) = vac in
              left-Vacated k i id (pool s.memory) (pool r.memory) h
                (subst (λ q. Vacated k (i + 1) id (left i q) (pool r.memory)) e vac'))
  | inr h ↦ rw h (
      Returns-mono
        (release_frames-Vacated k (i + 1) id kill s
          (λ j le lt. v j (omega (arith, le)) (omega (arith, lt))))
        λ x g. kept-Vacated k i id (pool s.memory) (pool g.memory) h)
]

-- What the end of the process `id` promises: its frames are free and the others as they were, all
-- page table entries are as they were, and the semaphore of the pool is free.
pub record Ended (s : Support) (id : ℕ) (e : Exit) (g : Support) : Type 0 where
  pub ends : e ≡ killed
  pub free : (j : ℕ) → j < swap_size → ((g.memory.frame j).asid == id) ≡ false
  pub others :
      (j : ℕ) → ((s.memory.frame j).asid == id) ≡ false → g.memory.frame j ≡ s.memory.frame j
  pub entries : (q : PtePtr) → lo_of (pool g.memory) q ≡ lo_of (pool s.memory) q
  pub released : held swap_sem g.trace ≡ false

Vacated-Ended :
    (s g : Support) (id : ℕ)
    → is_user id ≡ true
    → Vacated swap_size 0 id (pool s.memory) (pool g.memory)
    → held swap_sem g.trace ≡ false
    → Ended s id killed g
Vacated-Ended s g id u v h = record {
  ends = refl;
  free = λ j lt.
      let yes : (leb 0 j && ltb j (0 + swap_size)) ≡ true = ground arith in
      rw (rw yes at (v.frames j)) (elim (Bool-cases ((s.memory.frame j).asid == id)) [
        | inl mine ↦ rw mine (ground (arith, u))
        | inr other ↦ rw other other
      ]);
  others = λ j ne.
      rw (v.frames j, ne)
        (elim (Bool-cases (leb 0 j && ltb j (0 + swap_size))) [
          | inl inside ↦ rw inside refl
          | inr outside ↦ rw outside refl
        ]);
  entries = v.entries;
  released = h;
}

-- the part of meIRL behind its loop
abbrev leave : World → Bool → Cmd Support (Unit {0})
leave w kill = do
  if kill then tlbclr else pure tt
  interrupts true
  syscall w (verhogen swap_sem)
  syscall w (verhogen master_sem)
  end_process

leave-Ended :
    (w : World) (kill : Bool) (id : ℕ) (s g : Support)
    → IsAlone w
    → is_user id ≡ true
    → Vacated swap_size 0 id (pool s.memory) (pool g.memory)
    → Leaves (Ended s id) (leave w kill g)
unfolding syscall interrupts end_process
leave-Ended w true id s g alone u v =
    let same = sym (alone _ _ ∙ alone _ _) in
    leaves (Vacated-Ended s _ id u (subst (Vacated swap_size 0 id (pool s.memory)) same v) refl)
leave-Ended w false id s g alone u v =
    let same = sym (alone _ _ ∙ alone _ _) in
    leaves (Vacated-Ended s _ id u (subst (Vacated swap_size 0 id (pool s.memory)) same v) refl)

-- With no other process working on the pool, the end of a process takes its frames from it and no
-- others, releases the semaphore of the pool and does not return. It leaves all page table entries
-- as they were, valid ones included.
pub me_irl-Ended :
    (w : World) (id : ℕ) (s : Support)
    → IsAlone w
    → IsPool (pool s.memory)
    → is_user id ≡ true
    → Leaves (Ended s id) (me_irl w id s)
unfolding me_irl syscall interrupts end_process
me_irl-Ended w id s alone sound u =
    let start = w.others (passeren swap_sem ∷ s.trace) s.memory in
    let same : pool start ≡ pool s.memory = alone (passeren swap_sem ∷ s.trace) s.memory in
    let sound' : IsPool (pool start) = rw same sound in
    Returns-Leaves {k = leave w}
      (release_frames-Vacated swap_size 0 id false _
        λ j le lt mine. sound'.entries j (omega (arith, lt)) (ground (arith, mine, u)))
      λ kill g v.
        leave-Ended w kill id s g alone u
          (subst (λ q. Vacated swap_size 0 id q (pool g.memory)) same v)
