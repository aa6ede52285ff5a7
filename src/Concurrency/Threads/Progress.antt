-- ===== src/Concurrency/Threads/Progress.antt =====
-- Threads of experiments/04_concurrency_control.c that have begun a function come to its end.
use model_lib.Prelude.{
  ℕ, ◌≤◌, ◌<◌, ◌≡◌, ◌⊎◌, refl, sym, subst, ap, ◌∙◌, inl, inr, true, false, List, [], ◌∷◌, Option,
  none, some, arith, Bool-cases,
}
use model_lib.Prelude.Words.{int_le}
use model_lib.Concurrency.State.{max_data_items}
use model_lib.Concurrency.Threads.Moves.{
  Lock, spin, mutex, rwlock, Memory, held, is_free, Pc, idle, want, test, evict, load_dec,
  store_dec, insert, load_inc, store_inc, load_ops, store_ops, unlock, want_read, pass, load_read,
  store_read, unlock_read, want_clear, clear_list, clear_count, clear_stats, fault, Move, start_add,
  lock, full, room, take_first, take_none, dec_loads, dec_stores, add_tail, inc_loads, inc_stores,
  ops_loads, ops_stores, release, read_lock, read_items, read_loads, read_stores, read_unlock,
  clear_lock, frees_list, clears_count, clears_stats,
}
use model_lib.Concurrency.Threads.System.{System}
use model_lib.Concurrency.Threads.Tally.{tally-some}
use model_lib.Concurrency.Threads.Held.{lock_of, is_of, holds, reads, bit}
use model_lib.Concurrency.Threads.Locks.{Locked}
use model_lib.Concurrency.Threads.Local.{Uses}

-- How many moves a thread still makes at most, but for new functions that it begins.
abbrev pub remaining : Pc → ℕ
remaining idle = 0
remaining (want l value) = 11
remaining (test l value) = 10
remaining (evict l value) = 9
remaining (load_dec l value) = 8
remaining (store_dec l value c) = 7
remaining (insert l value) = 6
remaining (load_inc l) = 5
remaining (store_inc l c) = 4
remaining (load_ops l) = 3
remaining (store_ops l c) = 2
remaining (unlock l) = 1
remaining want_read = 5
remaining pass = 4
remaining load_read = 3
remaining (store_read c) = 2
remaining unlock_read = 1
remaining want_clear = 5
remaining clear_list = 4
remaining clear_count = 3
remaining clear_stats = 2
remaining (fault l) = 0

pub Move-remaining :
    {m m' : Memory} {p p' : Pc} → Move m p m' p' → 0 < remaining p → remaining p' < remaining p
Move-remaining (start_add l v) h = absurd (omega (arith, h))
Move-remaining mv h = omega (arith, h)

pub Move-Uses :
    {m m' : Memory} {p p' : Pc} (l : Lock) → Move m p m' p' → 0 < remaining p → Uses l p → Uses l p'
Move-Uses l (start_add k v) h u = absurd (omega (arith, h))
Move-Uses l (clears_stats) h u = u
Move-Uses l mv h u = ground arith

abbrev pub Enabled : Memory → Pc → Type 0
Enabled m p = (m' : Memory) × (p' : Pc) × Move m p m' p'

abbrev inside : Option Lock → ℕ
inside none = 0
inside (some l) = 1

holds-le-inside : (l : Lock) (o : Option Lock) → is_of l o ≤ inside o
holds-le-inside l none = omega arith
holds-le-inside spin (some spin) = omega arith
holds-le-inside mutex (some mutex) = omega arith
holds-le-inside rwlock (some rwlock) = omega arith
holds-le-inside l (some k) = ground arith

-- A thread that is inside is not blocked.
inside-Enabled :
    (m : Memory) (p : Pc)
    → 0 < inside (lock_of p)
    → ((0 < remaining p) × Enabled m p) ⊎ ((k : Lock) × (p ≡ fault k))
inside-Enabled m idle h = absurd (omega (arith, h))
inside-Enabled m (want k v) h = absurd (omega (arith, h))
inside-Enabled m (test k v) h = elim (Bool-cases (int_le max_data_items m.data_count)) [
  | inl e ↦ inl (omega arith, (_, _, full e))
  | inr e ↦ inl (omega arith, (_, _, room e))
]
inside-Enabled m (evict k v) h = go m.data_list refl
  where
    go :
        (items : List ℕ)
        → m.data_list ≡ items
        → ((0 < remaining (evict k v)) × Enabled m (evict k v))
          ⊎ ((j : Lock) × (evict k v ≡ fault j))
    go [] e = inl (omega arith, (_, _, take_none e))
    go (x ∷ rest) e = inl (omega arith, (_, _, take_first x rest e))
inside-Enabled m (load_dec k v) h = inl (omega arith, (_, _, dec_loads))
inside-Enabled m (store_dec k v c) h = inl (omega arith, (_, _, dec_stores))
inside-Enabled m (insert k v) h = inl (omega arith, (_, _, add_tail))
inside-Enabled m (load_inc k) h = inl (omega arith, (_, _, inc_loads))
inside-Enabled m (store_inc k c) h = inl (omega arith, (_, _, inc_stores))
inside-Enabled m (load_ops k) h = inl (omega arith, (_, _, ops_loads))
inside-Enabled m (store_ops k c) h = inl (omega arith, (_, _, ops_stores))
inside-Enabled m (unlock k) h = inl (omega arith, (_, _, release))
inside-Enabled m clear_list h = inl (omega arith, (_, _, frees_list))
inside-Enabled m clear_count h = inl (omega arith, (_, _, clears_count))
inside-Enabled m clear_stats h = inl (omega arith, (_, _, clears_stats))
inside-Enabled m (fault k) h = inr (k, refl)
inside-Enabled m p h = absurd (omega (arith, h))

reading-Enabled : (m : Memory) (p : Pc) → 0 < reads p → (0 < remaining p) × Enabled m p
reading-Enabled m pass h = (omega arith, (_, _, read_items))
reading-Enabled m load_read h = (omega arith, (_, _, read_loads))
reading-Enabled m (store_read c) h = (omega arith, (_, _, read_stores))
reading-Enabled m unlock_read h = (omega arith, (_, _, read_unlock))
reading-Enabled m p h = absurd (omega (arith, h))

-- Some thread that is in a function can move, or some thread has gone wrong.
abbrev pub GoesOn : ℕ → System → Type 0
GoesOn n s =
    ((j : ℕ) × (j < n) × (0 < remaining (s.pc j)) × Enabled s.mem (s.pc j))
    ⊎ ((j : ℕ) × (k : Lock) × (j < n) × (s.pc j ≡ fault k))

module _ {n : ℕ} {s : System} (v : Locked n s.mem s.pc) where
  -- A lock that is held has a thread inside.
  holder-GoesOn : (l : Lock) → held l s.mem ≡ true → GoesOn n s
  holder-GoesOn l e =
      let (j, lt, some_hold) = tally-some (holds l) n s.pc (omega (arith, v.owned l, ap bit e)) in
      elim (inside-Enabled s.mem (s.pc j)
        (omega (arith, some_hold, holds-le-inside l (lock_of (s.pc j))))) [
          | inl (busy, can) ↦ inl (j, lt, busy, can)
          | inr (k, bad) ↦ inr (j, k, lt, bad)
        ]

  reader-GoesOn : 0 < s.mem.readers → GoesOn n s
  reader-GoesOn h =
      let (j, lt, some_read) = tally-some reads n s.pc (omega (arith, v.shared, h)) in
      let (busy, can) = reading-Enabled s.mem (s.pc j) some_read in inl (j, lt, busy, can)

  blocked-GoesOn : (l : Lock) → is_free l s.mem ≡ false → GoesOn n s
  blocked-GoesOn spin e = holder-GoesOn spin (ground arith)
  blocked-GoesOn mutex e = holder-GoesOn mutex (ground arith)
  blocked-GoesOn rwlock e = elim (Bool-cases s.mem.write_held) [
    | inl w ↦ holder-GoesOn rwlock w
    | inr w ↦ reader-GoesOn (ground arith)
  ]

  -- The thread itself can move.
  self-GoesOn :
      (i : ℕ) (p : Pc) → i < n → s.pc i ≡ p → 0 < remaining p → Enabled s.mem p → GoesOn n s
  self-GoesOn i p lt e h can =
      inl (i, lt, subst (λ q. 0 < remaining q) (sym e) h, subst (λ q. Enabled s.mem q) (sym e) can)

  pub thread-GoesOn : (i : ℕ) (p : Pc) → i < n → s.pc i ≡ p → 0 < remaining p → GoesOn n s
  thread-GoesOn i idle lt e h = absurd (omega (arith, h))
  thread-GoesOn i (fault k) lt e h = absurd (omega (arith, h))
  thread-GoesOn i (want l value) lt e h = elim (Bool-cases (is_free l s.mem)) [
    | inl free ↦ self-GoesOn i (want l value) lt e h (_, _, lock free)
    | inr taken ↦ blocked-GoesOn l taken
  ]
  thread-GoesOn i want_read lt e h = elim (Bool-cases s.mem.write_held) [
    | inl w ↦ holder-GoesOn rwlock w
    | inr w ↦ self-GoesOn i want_read lt e h (_, _, read_lock w)
  ]
  thread-GoesOn i want_clear lt e h = elim (Bool-cases s.mem.spin_held) [
    | inl w ↦ holder-GoesOn spin w
    | inr w ↦ self-GoesOn i want_clear lt e h (_, _, clear_lock w)
  ]
  thread-GoesOn i pass lt e h =
      self-GoesOn i pass lt e h (reading-Enabled s.mem pass (omega arith)).1
  thread-GoesOn i load_read lt e h =
      self-GoesOn i load_read lt e h (reading-Enabled s.mem load_read (omega arith)).1
  thread-GoesOn i (store_read c) lt e h =
      self-GoesOn i (store_read c) lt e h (reading-Enabled s.mem (store_read c) (omega arith)).1
  thread-GoesOn i unlock_read lt e h =
      self-GoesOn i unlock_read lt e h (reading-Enabled s.mem unlock_read (omega arith)).1
  thread-GoesOn i p lt e h = elim (inside-Enabled s.mem p (omega arith)) [
    | inl (busy, can) ↦ self-GoesOn i p lt e h can
    | inr (k, bad) ↦ inr (i, k, lt, e ∙ bad)
  ]
