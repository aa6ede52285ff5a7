-- ===== src/Concurrency/Threads/Turns.antt =====
-- Runs of the threads of experiments/04_concurrency_control.c, put together one move at a time.
use model_lib.Prelude.{
  ℕ, ◌<◌, ◌≡◌, refl, sym, subst, ap, fun_ext, ◌∙◌, inl, inr, Bool, true, false, arith, ◌==◌,
  Bool-cases, ==_iff,
}
use model_lib.Prelude.Words.{int_le}
use model_lib.Concurrency.State.{max_data_items}
use model_lib.Concurrency.Threads.Moves.{
  Lock, spin, mutex, rwlock, Memory, held, is_free, set_held, Pc, idle, test, Move, start_add,
}
use model_lib.Concurrency.Threads.System.{
  System, moved, moved_self, by_thread, Reach, later, Anything,
}
use model_lib.Concurrency.Threads.Solo.{Solo, here, on, finished, Solo-lock, Solo-room}
use model_lib.Concurrency.Threads.Tally.{tally-zero}
use model_lib.Concurrency.Threads.Held.{holds, reads, bit}
use model_lib.Concurrency.Threads.Locks.{Locked, Reach-Locked}

-- No thread is in a function.
abbrev pub IsQuiet : System → Type 0
IsQuiet s = (i : ℕ) → s.pc i ≡ idle

-- No lock is held, and nobody reads.
pub record Unlocked (m : Memory) : Type 0 where
  pub no_spin : m.spin_held ≡ false
  pub no_mutex : m.mutex_held ≡ false
  pub no_write : m.write_held ≡ false
  pub no_reader : m.readers ≡ 0

pub quiet-Unlocked : {n : ℕ} {s : System} → Reach n Anything s → IsQuiet s → Unlocked s.mem
quiet-Unlocked {n} {s} r q = record {
  no_spin = free spin;
  no_mutex = free mutex;
  no_write = free rwlock;
  no_reader = sym v.shared ∙ tally-zero reads n s.pc (λ i. ap reads (q i));
}
  where
    v : Locked n s.mem s.pc
    v = Reach-Locked r

    free : (l : Lock) → held l s.mem ≡ false
    free l = elim (Bool-cases (held l s.mem)) [
      | inr e ↦ e
      | inl e ↦ absurd (
          omega (arith, v.owned l, tally-zero (holds l) n s.pc (λ i. ap (holds l) (q i)), ap bit e))
    ]

pub Unlocked-free : (l : Lock) (m : Memory) → Unlocked m → is_free l m ≡ true
Unlocked-free spin m u = ground arith
Unlocked-free mutex m u = ground arith
Unlocked-free rwlock m u = ground arith

abbrev pub at_pc : Memory → (ℕ → Pc) → System
at_pc m pc = record { mem = m; pc = pc }

-- Thread `i` stands at `p`, and the others as `pc` says.
pub record At (n i : ℕ) (pc : ℕ → Pc) (m : Memory) (p : Pc) : Type 0 where
  pub reached : Reach n Anything (at_pc m (moved pc i p))

pub moved-twice : (pc : ℕ → Pc) (i : ℕ) (p q : Pc) → moved (moved pc i p) i q ≡ moved pc i q
moved-twice pc i p q = fun_ext (λ j. ground arith)

moved-back : (pc : ℕ → Pc) (i : ℕ) → moved pc i (pc i) ≡ pc
moved-back pc i = fun_ext λ j. elim (Bool-cases (j == i)) [
  | inl e ↦ rw e (ap pc (sym ((==_iff j i).0 e)))
  | inr e ↦ rw e refl
]

moved-swap :
    (pc : ℕ → Pc) (i j : ℕ) (p q : Pc)
    → (i == j) ≡ false
    → moved (moved pc j q) i p ≡ moved (moved pc i p) j q
moved-swap pc i j p q e = fun_ext (λ k. ground arith)

pub moved-quiet :
    (pc : ℕ → Pc) (i : ℕ) → ((j : ℕ) → pc j ≡ idle) → (j : ℕ) → moved pc i idle j ≡ idle
moved-quiet pc i q j = elim (Bool-cases (j == i)) [ inl e ↦ rw e refl | inr e ↦ rw e (q j) ]

-- Thread `i` makes a move.
pub go :
    {n i : ℕ} {pc : ℕ → Pc} {m m' : Memory} {p p' : Pc}
    → i < n
    → Move m p m' p'
    → At n i pc m p
    → At n i pc m' p'
go {n} {i} {pc} {m} {m'} {p} {p'} lt mv r = record {
  reached =
      subst (λ f. Reach n Anything (at_pc m' f)) (moved-twice pc i p p')
        (later r.reached (by_thread i lt (subst (λ q. Move m q m' p') (sym (moved_self pc i p)) mv))
          (λ j. tt));
}

pub turn_to :
    {n : ℕ} (i : ℕ) {pc : ℕ → Pc} {m : Memory} → Reach n Anything (at_pc m pc) → At n i pc m (pc i)
turn_to {n} i {pc} {m} r = record {
  reached = subst (λ f. Reach n Anything (at_pc m f)) (sym (moved-back pc i)) r;
}

pub quiet_turn :
    {n : ℕ} {m : Memory} {pc : ℕ → Pc} (i : ℕ)
    → Reach n Anything (at_pc m pc)
    → pc i ≡ idle
    → At n i pc m idle
quiet_turn {n} {m} {pc} i r q = subst (λ p. At n i pc m p) q (turn_to i r)

-- The other thread's turn.
pub swap :
    {n i j : ℕ} (pc : ℕ → Pc) {m : Memory} {p q : Pc}
    → (i == j) ≡ false
    → At n i (moved pc j q) m p
    → At n j (moved pc i p) m q
swap {n} {i} {j} pc {m} {p} {q} e r = record {
  reached = subst (λ f. Reach n Anything (at_pc m f)) (moved-swap pc i j p q e) r.reached;
}

pub set_held-keeps :
    (l : Lock) (b : Bool) (m : Memory)
    → ((set_held l b m).data_list ≡ m.data_list)
      × ((set_held l b m).data_count ≡ m.data_count)
      × ((set_held l b m).stats ≡ m.stats)
set_held-keeps spin b m = (refl, refl, refl)
set_held-keeps mutex b m = (refl, refl, refl)
set_held-keeps rwlock b m = (refl, refl, refl)

pub follow :
    {n i : ℕ} {pc : ℕ → Pc} {m : Memory} {p : Pc} {m' : Memory} {p' : Pc}
    → i < n
    → Solo m p m' p'
    → At n i pc m p
    → At n i pc m' p'
follow lt here r = r
follow lt (on busy mv solo) r = go lt mv (follow lt solo r)

module _ {n i : ℕ} {pc : ℕ → Pc} (lt : i < n) (l : Lock) (value : ℕ) where
  pub run_enter :
      {m : Memory}
      → is_free l m ≡ true
      → At n i pc m idle
      → At n i pc (set_held l true m) (test l value)
  run_enter free r = follow lt (Solo-lock l value free here) (go lt (start_add l value) r)

  pub run_room :
      {m : Memory}
      → int_le max_data_items m.data_count ≡ false
      → At n i pc m (test l value)
      → At n i pc (finished l value m) idle
  run_room e r = follow lt (Solo-room l value e here) r
