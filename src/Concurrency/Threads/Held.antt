-- ===== src/Concurrency/Threads/Held.antt =====
-- Which place in experiments/04_concurrency_control.c has which lock.
use model_lib.Prelude.{ℕ, ◌+◌, ◌≤◌, ◌≡◌, Bool, true, false, Option, none, some, arith}
use model_lib.Concurrency.Threads.Moves.{
  Lock, spin, mutex, rwlock, Memory, held, is_free, set_held, Pc, idle, want, test, evict, load_dec,
  store_dec, insert, load_inc, store_inc, load_ops, store_ops, unlock, want_read, pass, load_read,
  store_read, unlock_read, want_clear, clear_list, clear_count, clear_stats, fault, Move, lock,
  release, read_lock, clear_lock,
}

-- The lock that a thread has for itself at a place.
abbrev pub lock_of : Pc → Option Lock
lock_of idle = none
lock_of (want l value) = none
lock_of (test l value) = some l
lock_of (evict l value) = some l
lock_of (load_dec l value) = some l
lock_of (store_dec l value c) = some l
lock_of (insert l value) = some l
lock_of (load_inc l) = some l
lock_of (store_inc l c) = some l
lock_of (load_ops l) = some l
lock_of (store_ops l c) = some l
lock_of (unlock l) = some l
lock_of want_read = none
lock_of pass = none
lock_of load_read = none
lock_of (store_read c) = none
lock_of unlock_read = none
lock_of want_clear = none
lock_of clear_list = some spin
lock_of clear_count = some spin
lock_of clear_stats = some spin
lock_of (fault l) = some l

abbrev pub same_lock : Lock → Lock → ℕ
same_lock spin spin = 1
same_lock mutex mutex = 1
same_lock rwlock rwlock = 1
same_lock _ _ = 0

abbrev pub is_of : Lock → Option Lock → ℕ
is_of l none = 0
is_of l (some k) = same_lock l k

-- 1 for a thread that has the lock `l` for itself, and for one that reads under the rwlock.
abbrev pub holds : Lock → Pc → ℕ
holds l p = is_of l (lock_of p)

abbrev pub reads : Pc → ℕ
reads pass = 1
reads load_read = 1
reads (store_read c) = 1
reads unlock_read = 1
reads _ = 0

abbrev pub bit : Bool → ℕ
bit true = 1
bit false = 0

pub held_of_free : (k : Lock) (m : Memory) → is_free k m ≡ true → held k m ≡ false
held_of_free spin m e = ground arith
held_of_free mutex m e = ground arith
held_of_free rwlock m e = ground arith

take-held :
    (l k : Lock) (m : Memory)
    → held k m ≡ false
    → same_lock l k + bit (held l m) ≡ bit (held l (set_held k true m))
take-held spin spin m e = ground arith
take-held spin mutex m e = ground arith
take-held spin rwlock m e = ground arith
take-held mutex spin m e = ground arith
take-held mutex mutex m e = ground arith
take-held mutex rwlock m e = ground arith
take-held rwlock spin m e = ground arith
take-held rwlock mutex m e = ground arith
take-held rwlock rwlock m e = ground arith

give-held :
    (l k : Lock) (m : Memory)
    → same_lock l k ≤ bit (held l m)
    → bit (held l m) ≡ same_lock l k + bit (held l (set_held k false m))
give-held spin spin m e = ground arith
give-held spin mutex m e = ground arith
give-held spin rwlock m e = ground arith
give-held mutex spin m e = ground arith
give-held mutex mutex m e = ground arith
give-held mutex rwlock m e = ground arith
give-held rwlock spin m e = ground arith
give-held rwlock mutex m e = ground arith
give-held rwlock rwlock m e = ground arith

-- A move takes a lock that is free, gives one back that it has, or leaves the locks as they are.
pub Move-holds :
    {m m' : Memory} {p p' : Pc}
    → Move m p m' p'
    → (l : Lock) → holds l p ≤ bit (held l m)
    → holds l p' + bit (held l m) ≡ holds l p + bit (held l m')
Move-holds {m} (lock {l = k} free) l h = ground (arith, take-held l k m (held_of_free k m free))
Move-holds {m} (release {l = k}) l h = ground (arith, give-held l k m h)
Move-holds {m} (clear_lock free) l h = ground (arith, take-held l spin m free)
Move-holds mv spin h = ground arith
Move-holds mv mutex h = ground arith
Move-holds mv rwlock h = ground arith

pub Move-reads :
    {m m' : Memory} {p p' : Pc}
    → Move m p m' p'
    → reads p ≤ m.readers
    → reads p' + m.readers ≡ reads p + m'.readers
Move-reads (lock {l = spin} free) h = ground arith
Move-reads (lock {l = mutex} free) h = ground arith
Move-reads (lock {l = rwlock} free) h = ground arith
Move-reads (release {l = spin}) h = ground arith
Move-reads (release {l = mutex}) h = ground arith
Move-reads (release {l = rwlock}) h = ground arith
Move-reads mv h = ground arith

pub Move-excluded :
    {m m' : Memory} {p p' : Pc}
    → Move m p m' p'
    → (m.write_held ≡ true → m.readers ≡ 0)
    → reads p ≤ m.readers
    → m'.write_held ≡ true
    → m'.readers ≡ 0
Move-excluded (lock {l = spin} free) e h w = ground arith
Move-excluded (lock {l = mutex} free) e h w = ground arith
Move-excluded (lock {l = rwlock} free) e h w = ground arith
Move-excluded (release {l = spin}) e h w = ground arith
Move-excluded (release {l = mutex}) e h w = ground arith
Move-excluded (release {l = rwlock}) e h w = ground arith
Move-excluded (read_lock open_to_read) e h w = ground arith
Move-excluded mv e h w = ground arith
