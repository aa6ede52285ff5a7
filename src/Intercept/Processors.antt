-- ===== src/Intercept/Processors.antt =====
-- The probes of experiments/01_syscall_intercept.c on several processors: `fork_count++` and
-- `exit_count++` load the counter and store it, under no lock. What the handlers print is left out.
use model_lib.Prelude.{ℕ, suc, ◌<◌, ◌≡◌, ◌==◌, sym, subst, if◌then◌else◌}
use model_lib.Prelude.Words.{inc64}
use model_lib.Intercept.Probes.{Counters, initial}

-- Where a processor stands, with the value that it has loaded.
pub data Place : Type 0 where
  outside : Place
  fork_loaded : ℕ → Place
  exit_loaded : ℕ → Place

pub data Move (c : Counters) : Place → Counters → Place → Type 0 where
  fork_loads : Move c outside c (fork_loaded c.fork_count)
  fork_stores : {x : ℕ} → Move c (fork_loaded x) (record c { fork_count = inc64 x }) outside
  exit_loads : Move c outside c (exit_loaded c.exit_count)
  exit_stores : {x : ℕ} → Move c (exit_loaded x) (record c { exit_count = inc64 x }) outside

-- The numbers of forks and of exits counted, after a move from a place: a store counts one.
abbrev pub forks_after : Place → ℕ → ℕ
forks_after (fork_loaded x) forks = suc forks
forks_after _ forks = forks

abbrev pub exits_after : Place → ℕ → ℕ
exits_after (exit_loaded x) exits = suc exits
exits_after _ exits = exits

abbrev pub placed : (ℕ → Place) → ℕ → Place → ℕ → Place
placed pc i p j = if j == i then p else pc j

-- What `n` processors reach, with the numbers of forks and of exits that they have counted.
pub data Trace (n : ℕ) : Counters → (ℕ → Place) → ℕ → ℕ → Type 0 where
  begin : Trace n initial (λ i. outside) 0 0
  more :
      {c : Counters} {pc : ℕ → Place} {forks exits : ℕ} (i : ℕ) {c' : Counters} {p : Place}
      → Trace n c pc forks exits
      → i < n
      → Move c (pc i) c' p
      → Trace n c' (placed pc i p) (forks_after (pc i) forks) (exits_after (pc i) exits)

pub moves_from :
    {n : ℕ} {c c' : Counters} {pc : ℕ → Place} {forks exits : ℕ} (i : ℕ) {p p' : Place}
    → Trace n c pc forks exits
    → i < n
    → pc i ≡ p
    → Move c p c' p'
    → Trace n c' (placed pc i p') (forks_after p forks) (exits_after p exits)
moves_from {n} {c} {c'} {pc} {forks} {exits} i {p} {p'} t lt e mv =
    subst (λ q. Trace n c' (placed pc i p') (forks_after q forks) (exits_after q exits)) e
      (more i t lt (subst (λ q. Move c q c' p') (sym e) mv))
