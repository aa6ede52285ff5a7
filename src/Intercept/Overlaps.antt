-- ===== src/Intercept/Overlaps.antt =====
-- Events of experiments/01_syscall_intercept.c that overlap.
use model_lib.Prelude.{ℕ, zero, suc, ◌^◌, ◌≤◌, ◌<◌, ◌≡◌, refl, inl, inr, arith, ◌==◌, Bool-cases}
use model_lib.Intercept.Probes.{Counters, initial}
use model_lib.Intercept.Processors.{
  Place, outside, fork_loaded, exit_loaded, Move, fork_loads, fork_stores, exit_loads, exit_stores,
  forks_after, exits_after, placed, Trace, begin, more, moves_from,
}

-- A counter that has counted `k` events.
abbrev pub Between : ℕ → ℕ → Type 0
Between k count = (count ≤ k) × (0 < k → 0 < count)

-- What a processor has loaded.
abbrev Loaded : ℕ → ℕ → Place → Type 0
Loaded forks exits outside = Unit
Loaded forks exits (fork_loaded x) = x ≤ forks
Loaded forks exits (exit_loaded x) = x ≤ exits

Loaded-after :
    (q : Place) (forks exits : ℕ) (p : Place)
    → Loaded forks exits p
    → Loaded (forks_after q forks) (exits_after q exits) p
Loaded-after outside f e p h = h
Loaded-after (fork_loaded x) f e (fork_loaded y) h = omega (arith, h)
Loaded-after (fork_loaded x) f e p h = h
Loaded-after (exit_loaded x) f e (exit_loaded y) h = omega (arith, h)
Loaded-after (exit_loaded x) f e p h = h

after_bound :
    (p : Place) (forks exits : ℕ) → (forks ≤ forks_after p forks) × (exits ≤ exits_after p exits)
after_bound p f e = ground arith

record Counted (c : Counters) (pc : ℕ → Place) (forks exits : ℕ) : Type 0 where
  fork_between : Between forks c.fork_count
  exit_between : Between exits c.exit_count
  loaded : (i : ℕ) → Loaded forks exits (pc i)

Move-Counted :
    {c c' : Counters} {p p' : Place} {forks exits : ℕ}
    → Move c p c' p'
    → Between forks c.fork_count
    → Between exits c.exit_count
    → Loaded forks exits p
    → forks_after p forks < 2 ^ 64
    → exits_after p exits < 2 ^ 64
    → Between (forks_after p forks) c'.fork_count
      × Between (exits_after p exits) c'.exit_count
      × Loaded (forks_after p forks) (exits_after p exits) p'
Move-Counted fork_loads f e h small small' = (f, e, f.0)
Move-Counted fork_stores f e h small small' =
    ((omega (arith, h, small), λ z. omega (arith, h, small)), e, tt)
Move-Counted exit_loads f e h small small' = (f, e, e.0)
Move-Counted exit_stores f e h small small' =
    (f, (omega (arith, h, small'), λ z. omega (arith, h, small')), tt)

Trace-Counted :
    {n : ℕ} {c : Counters} {pc : ℕ → Place} {forks exits : ℕ}
    → Trace n c pc forks exits
    → forks < 2 ^ 64
    → exits < 2 ^ 64
    → Counted c pc forks exits
Trace-Counted begin f e = record {
  fork_between = (omega arith, λ h. absurd (omega (arith, h)));
  exit_between = (omega arith, λ h. absurd (omega (arith, h)));
  loaded = λ i. tt;
}
Trace-Counted (more {pc = pc} {forks} {exits} i {p = p} t lt mv) f e =
    let before =
      Trace-Counted t (omega (arith, f, (after_bound (pc i) forks exits).0))
        (omega (arith, e, (after_bound (pc i) forks exits).1)) in
    let (x, y, z) = Move-Counted mv before.fork_between before.exit_between (before.loaded i) f e in
    record {
      fork_between = x;
      exit_between = y;
      loaded = λ j. elim (Bool-cases (j == i)) [
        | inl q ↦ rw q z
        | inr q ↦ rw q (Loaded-after (pc i) forks exits (pc j) (before.loaded j))
      ];
    }

-- Processor 0 has loaded the counter, and processor 1 counts `k` forks.
meanwhile :
    (k : ℕ)
    → (c : Counters) × (pc : ℕ → Place) × Trace 2 c pc k 0
      × (pc 0 ≡ fork_loaded 0)
      × (pc 1 ≡ outside)
meanwhile zero = (
  initial,
  placed (λ i. outside) 0 (fork_loaded 0),
  more 0 begin (omega arith) fork_loads,
  refl,
  refl,
)
meanwhile (suc k) =
    let (c, pc, t, e, q) = meanwhile k in
    let half = moves_from 1 t (omega arith) q fork_loads in
    (_, _, moves_from 1 half (omega arith) refl fork_stores, e, refl)

-- However the handlers overlap, after fewer than 2 ^ 64 forks and exits each counter is at most the
-- number of events and at least 1 if there is one; and however many forks there are, two processors
-- can count them as 1.
pub fork_count-bounds :
    {n : ℕ} {c : Counters} {pc : ℕ → Place} {forks exits : ℕ}
    → Trace n c pc forks exits
    → forks < 2 ^ 64
    → exits < 2 ^ 64
    → Between forks c.fork_count
      × Between exits c.exit_count
      × ((k : ℕ) → (d : Counters) × (at : ℕ → Place) × Trace 2 d at (suc k) 0 × (d.fork_count ≡ 1))
fork_count-bounds t f e =
    let counted = Trace-Counted t f e in
    (
      counted.fork_between,
      counted.exit_between,
      λ k.
          let (c, pc, u, at_0, at_1) = meanwhile k in
          (_, _, moves_from 0 u (omega arith) at_0 fork_stores, refl),
    )
