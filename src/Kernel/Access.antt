-- ===== src/Kernel/Access.antt =====
-- Calls of pcb.c and asl.c from the nucleus.
use kaya_os.Base.{◌≡◌, refl, Run, ok, exit, fault, out_of_fuel, Cmd, Returns, returns}
use kaya_os.Pcb.{Pcbs}
use kaya_os.Asl.{Asl}
use kaya_os.Kernel.{Kernel, on_pcb, on_asl}

abbrev pub with_pcbs : Kernel → Pcbs → Kernel
with_pcbs s t = record s { asl = record s.asl { pcbs = t } }

-- What a function of pcb.c promises of the blocks, of the whole state.
pub on_pcb-Returns :
    {A : Type 0} {P : A → Pcbs → Type 0} (m : Cmd Pcbs A) (s : Kernel)
    → Returns P (m s.asl.pcbs)
    → Returns (λ r g. (t : Pcbs) × (g ≡ with_pcbs s t) × P r t) (on_pcb m s)
on_pcb-Returns {P} m s done = go (m s.asl.pcbs) done
  where
    go :
        (r : Run Pcbs _)
        → Returns P r
        → Returns (λ r g. (t : Pcbs) × (g ≡ with_pcbs s t) × P r t) (on_pcb (λ _. r) s)
    go (ok b t) (returns p) = returns (t, refl, p)
    go (exit e t) p = elim p [ ]
    go fault p = elim p [ ]
    go out_of_fuel p = elim p [ ]

-- What a function of asl.c promises of the semaphores, of the whole state.
pub on_asl-Returns :
    {A : Type 0} {P : A → Asl → Type 0} (m : Cmd Asl A) (s : Kernel)
    → Returns P (m s.asl)
    → Returns (λ r g. (a : Asl) × (g ≡ record s { asl = a }) × P r a) (on_asl m s)
on_asl-Returns {P} m s done = go (m s.asl) done
  where
    go :
        (r : Run Asl _)
        → Returns P r
        → Returns (λ r g. (a : Asl) × (g ≡ record s { asl = a }) × P r a) (on_asl (λ _. r) s)
    go (ok b t) (returns p) = returns (t, refl, p)
    go (exit e t) p = elim p [ ]
    go fault p = elim p [ ]
    go out_of_fuel p = elim p [ ]
