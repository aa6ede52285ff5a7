-- ===== src/ProcInterface/Counter.antt =====
-- The counter of experiments/03_proc_interface.c counts its reads.
use model_lib.Prelude.{ℕ, ◌+◌, ◌%◌, ◌^◌, ◌<◌, ◌≡◌, refl, ◌∙◌, List, [], ◌∷◌, some, arith, length}
use model_lib.Prelude.Text.{codes}
use model_lib.Kernel.{Kernel, Line, written}
use model_lib.ProcInterface.State.{ProcData}
use model_lib.ProcInterface.Files.{counter_show, counter_write}

-- Reads at the given times, the last one first.
abbrev pub after_reads : List ℕ → ProcData → ProcData
after_reads [] d = d
after_reads (now ∷ times) d = (counter_show now (after_reads times d)).0

counter-after_reads :
    (times : List ℕ) (d : ProcData)
    → d.counter < 2 ^ 32
    → (after_reads times d).counter ≡ (d.counter + length times) % 2 ^ 32
unfolding counter_show
counter-after_reads [] d h = omega (arith, h)
counter-after_reads (now ∷ times) d h = omega (arith, counter-after_reads times d h)

-- "reset" and then reads: the counter is the number of reads, modulo 2 ^ 32.
pub reset_then_reads :
    (k : Kernel) (now : ℕ) (times : List ℕ) (d : ProcData)
    → (d' : ProcData) × (out : List Line) × (counter_write k now 6 (some (codes "reset\n")) d
        ≡ some (d', out, written 6))
      × ((after_reads times d').counter ≡ length times % 2 ^ 32)
unfolding counter_write
reset_then_reads k now times d =
    let d' : ProcData = record d { counter = 0; last_access = now } in
    (d', _, refl, counter-after_reads times d' (omega arith) ∙ omega arith)
