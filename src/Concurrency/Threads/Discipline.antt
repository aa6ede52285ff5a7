-- ===== src/Concurrency/Threads/Discipline.antt =====
-- Threads of experiments/04_concurrency_control.c that all use one lock keep the list right.
use model_lib.Prelude.{
  ℕ, ◌≤◌, ◌<◌, ◌≡◌, ◌≢◌, refl, sym, subst, ap, ◌∙◌, Bool, true, false, arith, length,
}
use model_lib.Concurrency.State.{max_data_items}
use model_lib.Concurrency.Threads.Moves.{Lock, Memory, held, Pc, fault, Move}
use model_lib.Concurrency.Threads.System.{System, moved, moved_self, by_thread, Reach, start, later}
use model_lib.Concurrency.Threads.Guarded.{Guarded, Step-Guarded}
use model_lib.Concurrency.Threads.Tally.{tally-some}
use model_lib.Concurrency.Threads.Held.{holds, bit}
use model_lib.Concurrency.Threads.Locks.{Locked, Reach-Locked, holds-le}
use model_lib.Concurrency.Threads.Local.{
  Uses, Agrees, Local, Local-le, Move-Local, Move-aside, Local-outside, LocalAt, LocalAt-same,
}

-- What holds of the list while all threads use the lock `l`.
abbrev pub Kept : ℕ → Lock → Memory → (ℕ → Pc) → Type 0
Kept n l m pc = Guarded n l m pc (Agrees (length m.data_list) m.data_count) (LocalAt m)

Step-Kept :
    {n : ℕ} {l : Lock} {s : System} (i : ℕ) {m' : Memory} {p' : Pc}
    → i < n
    → Move s.mem (s.pc i) m' p'
    → Locked n s.mem s.pc
    → Uses l (s.pc i)
    → Uses l p'
    → Kept n l s.mem s.pc
    → Kept n l m' (moved s.pc i p')
Step-Kept {l = l} {s = s} i {m'} {p'} lt mv v u u' kept =
    Step-Guarded i lt mv v kept
      (λ out. (Local-outside l (length s.mem.data_list) s.mem.data_count (s.pc i) u out).1)
      (Move-Local mv) (λ out. (Local-outside l (length m'.data_list) m'.data_count p' u' out).0)
      (λ out out' p h.
        let (items, count) = Move-aside l mv u out out' in
        LocalAt-same s.mem m' (sym items) (sym count) refl h)

pub Reach-Uses : {n : ℕ} (l : Lock) {s : System} → Reach n (Uses l) s → (i : ℕ) → Uses l (s.pc i)
Reach-Uses l start i = tt
Reach-Uses l (later r st u) i = u i

pub Reach-Kept : {n : ℕ} (l : Lock) {s : System} → Reach n (Uses l) s → Kept n l s.mem s.pc
Reach-Kept l start = record {
  quiet = λ e. (refl, omega arith);
  inside = λ i lt e. (refl, omega arith);
}
Reach-Kept {n} l (later {s = s} r (by_thread i {m = m'} {p = p'} lt mv) u) =
    Step-Kept i lt mv (Reach-Locked r) (Reach-Uses l r i)
      (subst (λ q. Uses l q) (moved_self s.pc i p') (u i)) (Reach-Kept l r)

no_fault : (k c : ℕ) (p : Pc) (l : Lock) → Local k c p → p ≢ fault l
no_fault k c p l h e = subst (λ q. Local k c q) e h

-- While all threads use one and the same lock (readers use the rwlock, clear the spinlock), the list
-- never has more than 100 items, no thread takes the first entry of an empty list, and whenever no
-- thread has the lock for itself `data_count` is the length of the list.
pub one_lock :
    {n : ℕ} {s : System} (l : Lock)
    → Reach n (Uses l) s
    → (length s.mem.data_list ≤ max_data_items)
      × ((i : ℕ) (k : Lock) → i < n → s.pc i ≢ fault k)
      × (held l s.mem ≡ false → s.mem.data_count ≡ length s.mem.data_list)
one_lock {n} {s} l r = (bounded (held l s.mem) refl, sane, λ e. (kept.quiet e).0)
  where
    v : Locked n s.mem s.pc
    v = Reach-Locked r

    kept : Kept n l s.mem s.pc
    kept = Reach-Kept l r

    bounded : (b : Bool) → held l s.mem ≡ b → length s.mem.data_list ≤ max_data_items
    bounded false e = (kept.quiet e).1
    bounded true e =
        let (i, lt, some_hold) = tally-some (holds l) n s.pc (omega (arith, v.owned l, ap bit e)) in
        Local-le (length s.mem.data_list) s.mem.data_count (s.pc i)
          (kept.inside i lt (omega (arith, some_hold, holds-le l i v lt, ap bit e)))

    sane : (i : ℕ) (k : Lock) → i < n → s.pc i ≢ fault k
    sane i k lt e =
        let u : Uses l (fault k) = subst (λ q. Uses l q) e (Reach-Uses l r i) in
        no_fault (length s.mem.data_list) s.mem.data_count (s.pc i) k
          (kept.inside i lt (ap (holds l) e ∙ u)) e
