-- ===== src/Concurrency/Threads/Local.antt =====
-- What a thread of experiments/04_concurrency_control.c knows of the list inside its lock.
use model_lib.Prelude.{
  ℕ, ◌+◌, ◌≤◌, ◌<◌, ◌≡◌, refl, subst, ap, [], ◌∷◌, Option, none, some, arith, length, length-append,
}
use model_lib.Concurrency.State.{max_data_items}
use model_lib.Concurrency.Threads.Moves.{
  Lock, spin, mutex, rwlock, Memory, Pc, idle, want, test, evict, load_dec, store_dec, insert,
  load_inc, store_inc, load_ops, store_ops, unlock, want_read, pass, load_read, store_read,
  unlock_read, want_clear, clear_list, clear_count, clear_stats, fault, Move, lock, full, room,
  take_first, take_none, add_tail, release,
}
use model_lib.Concurrency.Threads.Held.{same_lock, holds}

-- The lock that the function at a place takes, if the thread is in a function.
abbrev pub place_lock : Pc → Option Lock
place_lock idle = none
place_lock (want l value) = some l
place_lock (test l value) = some l
place_lock (evict l value) = some l
place_lock (load_dec l value) = some l
place_lock (store_dec l value c) = some l
place_lock (insert l value) = some l
place_lock (load_inc l) = some l
place_lock (store_inc l c) = some l
place_lock (load_ops l) = some l
place_lock (store_ops l c) = some l
place_lock (unlock l) = some l
place_lock want_read = some rwlock
place_lock pass = some rwlock
place_lock load_read = some rwlock
place_lock (store_read c) = some rwlock
place_lock unlock_read = some rwlock
place_lock want_clear = some spin
place_lock clear_list = some spin
place_lock clear_count = some spin
place_lock clear_stats = some spin
place_lock (fault l) = some l

abbrev pub IsOrNone : Lock → Option Lock → Type 0
IsOrNone l none = Unit
IsOrNone l (some k) = same_lock l k ≡ 1

-- A thread that uses no other lock than `l`.
abbrev pub Uses : Lock → Pc → Type 0
Uses l p = IsOrNone l (place_lock p)

abbrev pub Agrees : ℕ → ℕ → Type 0
Agrees k c = (c ≡ k) × (k ≤ max_data_items)

-- What a thread at a place knows of the length `k` of the list and of `data_count`, if no other
-- thread is inside.
abbrev pub Local : ℕ → ℕ → Pc → Type 0
Local k c (evict l value) = (c ≡ max_data_items) × (k ≡ max_data_items)
Local k c (load_dec l value) = (c ≡ k + 1) × (k < max_data_items)
Local k c (store_dec l value d) = (d ≡ c) × (c ≡ k + 1) × (k < max_data_items)
Local k c (insert l value) = (c ≡ k) × (k < max_data_items)
Local k c (load_inc l) = (c + 1 ≡ k) × (k ≤ max_data_items)
Local k c (store_inc l d) = (d ≡ c) × (c + 1 ≡ k) × (k ≤ max_data_items)
Local k c clear_count = k ≡ 0
Local k c (fault l) = ⊥
Local k c _ = Agrees k c

pub Local-le : (k c : ℕ) (p : Pc) → Local k c p → k ≤ max_data_items
Local-le k c idle h = h.1
Local-le k c p h = ground arith

pub Move-Local :
    {m m' : Memory} {p p' : Pc}
    → Move m p m' p'
    → Local (length m.data_list) m.data_count p
    → Local (length m'.data_list) m'.data_count p'
Move-Local (lock {l = spin} free) h = h
Move-Local (lock {l = mutex} free) h = h
Move-Local (lock {l = rwlock} free) h = h
Move-Local (release {l = spin}) h = h
Move-Local (release {l = mutex}) h = h
Move-Local (release {l = rwlock}) h = h
Move-Local (full e) h = ground arith
Move-Local (room e) h = ground arith
Move-Local (take_first x rest e) h = omega (arith, ap length e)
Move-Local (take_none e) h = absurd (omega (arith, ap length e))
Move-Local {m} (add_tail {value = v}) h = omega (arith, length-append m.data_list (v ∷ []))
Move-Local mv h = ground arith

-- A thread that has no lock, and takes none, leaves the list and its count alone.
pub Move-aside :
    {m m' : Memory} {p p' : Pc} (l : Lock)
    → Move m p m' p'
    → Uses l p
    → holds l p ≡ 0
    → holds l p' ≡ 0
    → (m'.data_list ≡ m.data_list) × (m'.data_count ≡ m.data_count)
Move-aside l (lock {l = spin} free) u h h' = (refl, refl)
Move-aside l (lock {l = mutex} free) u h h' = (refl, refl)
Move-aside l (lock {l = rwlock} free) u h h' = (refl, refl)
Move-aside l (release {l = spin}) u h h' = (refl, refl)
Move-aside l (release {l = mutex}) u h h' = (refl, refl)
Move-aside l (release {l = rwlock}) u h h' = (refl, refl)
Move-aside l mv u h h' = ground arith

-- Outside its critical section a thread knows what everybody may know.
pub Local-outside :
    (l : Lock) (k c : ℕ) (p : Pc)
    → Uses l p
    → holds l p ≡ 0
    → (Local k c p → Agrees k c) × (Agrees k c → Local k c p)
Local-outside l k c idle u h = (λ x. x, λ x. x)
Local-outside l k c (want l' v) u h = (λ x. x, λ x. x)
Local-outside l k c p u h = ground arith

abbrev pub LocalAt : Memory → Pc → Type 0
LocalAt m p = Local (length m.data_list) m.data_count p

pub LocalAt-same :
    (m m' : Memory) {p p' : Pc}
    → m.data_list ≡ m'.data_list
    → m.data_count ≡ m'.data_count
    → p ≡ p'
    → LocalAt m p
    → LocalAt m' p'
LocalAt-same m m' {p} {p'} a b c h =
    subst (λ q. Local (length m'.data_list) m'.data_count q) c
      (subst (λ k. Local (length m'.data_list) k p) b
        (subst (λ t. Local (length t) m.data_count p) a h))
