-- ===== src/Support/Copy.antt =====
-- copy of phase3/initProc.c.
use kaya_os.Base.{
  ℕ, zero, suc, ◌+◌, ◌-◌, ◌*◌, ◌%◌, ◌≤◌, ◌≡◌, ◌⊎◌, ap, Bool, true, false, ◌&&◌, leb, ltb, ◌==◌,
  ==-refl, ==-sound, Bool-cases, inl, inr, if◌then◌else◌, arith, ok,
}
use kaya_os.Kernel.{update}
use kaya_os.Support.{page_size, Support, copy_loop, copy}

-- The address is that of one of the `k` words at `to`.
abbrev pub in_words : (to k a : ℕ) → Bool
in_words to k a = (leb to a && ltb a (to + 4 * k)) && ((a - to) % 4 == 0)

-- The memory with `k` words moved at once.
abbrev pub moved : (k from to : ℕ) → (ℕ → ℕ) → ℕ → ℕ
moved k from to word a = if in_words to k a then word (from + (a - to)) else word a

in_words-step : (to k a : ℕ) → (a == to) ≡ false → in_words to (suc k) a ≡ in_words (to + 4) k a
in_words-step to k a h = ground arith

copy_loop-moved :
    (k from to : ℕ) (word : ℕ → ℕ) (a : ℕ)
    → (to ≤ from) ⊎ (from + 4 * k ≤ to)
    → copy_loop k from to word a ≡ moved k from to word a
unfolding copy_loop
copy_loop-moved zero from to word a apart = ground arith
copy_loop-moved (suc k) from to word a apart =
    let rest =
      copy_loop-moved k (from + 4) (to + 4) (update word to (word from)) a
        (ground (arith, apart)) in
    elim (Bool-cases (a == to)) [
      | inl h ↦
          let at : a ≡ to = ==-sound a to h in
          let past : in_words (to + 4) k to ≡ false = ground arith in
          let here : in_words to (suc k) to ≡ true = ground arith in
          let start : from + (to - to) ≡ from = omega arith in
          rw (at, here, start) ((rw (at, past, ==-refl to) at rest))
      | inr h ↦
          let same : in_words to (suc k) a ≡ in_words (to + 4) k a = in_words-step to k a h in
          elim (Bool-cases (in_words (to + 4) k a)) [
            | inl inside ↦
                let from' : (from + 4) + (a - (to + 4)) ≡ from + (a - to) =
                  ground (arith, inside) in
                let old : (from + (a - to) == to) ≡ false = ground (arith, apart, inside) in
                rw (same, inside) (rw (inside, from', old) at rest)
            | inr outside ↦ rw (same, outside) (rw (outside, h) at rest)
          ]
    ]

-- The loop of copy, a word at a time, leaves the same memory as moving the 1024 words of a page at
-- once, if the target begins at or below the source or behind its end, and changes nothing else.
pub copy-moved :
    (from to : ℕ) (s : Support)
    → (to ≤ from) ⊎ (from + page_size ≤ to)
    → copy from to s
      ≡ ok tt (record s { memory = record s.memory { word = moved 1024 from to s.memory.word } })
unfolding copy
copy-moved from to s apart =
    let same : copy_loop 1024 from to s.memory.word ≡ moved 1024 from to s.memory.word =
      λ t a. copy_loop-moved 1024 from to s.memory.word a apart t in
    ap (λ f. ok tt (record s { memory = record s.memory { word = f } })) same
