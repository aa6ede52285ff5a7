-- ===== src/Concurrency/Threads/Guarded.antt =====
-- What the threads of experiments/04_concurrency_control.c know of memory that a lock guards.
use model_lib.Prelude.{
  ℕ, ◌+◌, ◌≤◌, ◌<◌, ◌≡◌, refl, sym, ap, ◌∙◌, inl, inr, true, false, arith, ◌==◌, Bool-cases, ==_iff,
}
use model_lib.Concurrency.Threads.Moves.{Lock, Memory, held, Pc, Move}
use model_lib.Concurrency.Threads.System.{System, moved, by_thread}
use model_lib.Concurrency.Threads.Held.{holds, bit, Move-holds}
use model_lib.Concurrency.Threads.Locks.{Locked, holds-le, holds_once, bit-le, Step-Locked}

-- `Quiet` holds while nobody has the lock `l` for itself, and `Inside p` of the place `p` of a
-- thread that has it.
pub record Guarded (n : ℕ) (l : Lock) (m : Memory) (pc : ℕ → Pc) (Quiet : Type 0)
    (Inside : Pc → Type 0) : Type 0 where
  pub quiet : held l m ≡ false → Quiet
  pub inside : (i : ℕ) → i < n → holds l (pc i) ≡ 1 → Inside (pc i)

-- A move of thread `i` keeps this, if the mover keeps it where it is alone, and changes nothing of
-- what another thread knows where it has no lock.
module _ {n : ℕ} {l : Lock} {s : System} (i : ℕ) {m' : Memory} {p' : Pc} (lt : i < n)
    (mv : Move s.mem (s.pc i) m' p') (v : Locked n s.mem s.pc) {Quiet Quiet' : Type 0}
    {Inside Inside' : Pc → Type 0} (g : Guarded n l s.mem s.pc Quiet Inside)
    (enters : holds l (s.pc i) ≡ 0 → Quiet → Inside (s.pc i)) (moves : Inside (s.pc i) → Inside' p')
    (leaves : holds l p' ≡ 0 → Inside' p' → Quiet')
    (aside : holds l (s.pc i) ≡ 0 → holds l p' ≡ 0 → (p : Pc) → Inside p → Inside' p) where
  abbrev next : ℕ → Pc
  next = moved s.pc i p'

  changed : holds l p' + bit (held l s.mem) ≡ holds l (s.pc i) + bit (held l m')
  changed = Move-holds mv l (holds-le l i v lt)

  mover_inside : holds l p' ≤ bit (held l m')
  mover_inside = ground (arith, holds-le l i (Step-Locked (by_thread i lt mv) v) lt)

  left : held l m' ≡ false → holds l p' ≡ 0
  left e = ground (arith, mover_inside)

  stays : (j : ℕ) → (j == i) ≡ false → next j ≡ s.pc j
  stays j q = rw q refl

  -- If the mover knows how things stand, and nobody else is inside.
  after_alone :
      Inside (s.pc i)
      → ((j : ℕ) → j < n → (j == i) ≡ false → holds l (s.pc j) ≡ 1 → ⊥)
      → Guarded n l m' next Quiet' Inside'
  after_alone h alone = record {
    quiet = λ e. leaves (left e) (moves h);
    inside = λ j hj e. elim (Bool-cases (j == i)) [
      | inl q ↦ rw q (moves h)
      | inr q ↦ absurd (alone j hj q (ap (holds l) (sym (stays j q)) ∙ e))
    ];
  }

  -- If another thread is inside, and the mover is not.
  after_aside : held l s.mem ≡ true → holds l (s.pc i) ≡ 0 → Guarded n l m' next Quiet' Inside'
  after_aside e out = record {
    quiet = λ q. absurd (ground (arith, changed));
    inside = λ j hj f. elim (Bool-cases (j == i)) [
      | inl q ↦ absurd (ground (arith, f, changed, bit-le (held l m')))
      | inr q ↦
          let stood : Inside (s.pc j) = g.inside j hj (ap (holds l) (sym (stays j q)) ∙ f) in
          rw q
            (aside out (omega (arith, changed, bit-le (held l m'), ap bit e, out)) (s.pc j) stood)
    ];
  }

  pub Step-Guarded : Guarded n l m' next Quiet' Inside'
  Step-Guarded = elim (Bool-cases (holds l (s.pc i) == 0)) [
    | inl q ↦
        let out : holds l (s.pc i) ≡ 0 = (==_iff (holds l (s.pc i)) 0).0 q in
        elim (Bool-cases (held l s.mem)) [
          | inl e ↦ after_aside e out
          | inr e ↦
              after_alone (enters out (g.quiet e))
                (λ j hj q f. absurd (omega (arith, holds-le l j v hj, ap bit e, f)))
        ]
    | inr in_it ↦
        let one : holds l (s.pc i) ≡ 1 = ground (arith, holds-le l i v lt, bit-le (held l s.mem)) in
        after_alone (g.inside i lt one) (λ j hj q f. ground (arith, holds_once l j i v hj lt f one))
  ]
