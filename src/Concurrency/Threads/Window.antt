-- ===== src/Concurrency/Threads/Window.antt =====
-- What is on the list of experiments/04_concurrency_control.c while all threads use one lock.
use model_lib.Prelude.{
  ℕ, ◌<◌, ◌≡◌, refl, sym, subst, ap, ◌∙◌, false, List, [], ◌∷◌, ◌++◌, reverse, arith, length, take,
  length-reverse, tail, tail-reverse-take, take-short,
}
use mathlib.Core.List.{reverse-cons}
use model_lib.Concurrency.State.{max_data_items}
use model_lib.Concurrency.Threads.Moves.{
  Lock, spin, mutex, rwlock, Memory, held, Pc, idle, load_dec, store_dec, insert, clear_list, Move,
  lock, release, take_first, add_tail, room, frees_list,
}
use model_lib.Concurrency.Threads.System.{
  System, moved, moved_self, by_thread, loaded, Reach, start, later,
}
use model_lib.Concurrency.Threads.Held.{holds}
use model_lib.Concurrency.Threads.Locks.{Reach-Locked}
use model_lib.Concurrency.Threads.Local.{
  Uses, Agrees, Move-Local, Move-aside, Local-outside, LocalAt, LocalAt-same,
}
use model_lib.Concurrency.Threads.Guarded.{Guarded, Step-Guarded}
use model_lib.Concurrency.Threads.Discipline.{Reach-Uses}

-- The values added since the last clear, the newest first, after a move from a place: an addition
-- counts when its item goes on the list, a clear when the items leave it.
abbrev pub entered : Pc → List ℕ → List ℕ
entered (insert l value) seen = value ∷ seen
entered clear_list seen = []
entered _ seen = seen

-- The states that `n` threads reach with what they have entered.
pub data Trace (n : ℕ) (Allowed : Pc → Type 0) : System → List ℕ → Type 0 where
  begin : Trace n Allowed loaded []
  more :
      {s : System} {seen : List ℕ} (i : ℕ) {m : Memory} {p : Pc}
      → Trace n Allowed s seen
      → i < n
      → Move s.mem (s.pc i) m p
      → ((j : ℕ) → Allowed (moved s.pc i p j))
      → Trace n Allowed (record { mem = m; pc = moved s.pc i p }) (entered (s.pc i) seen)

pub Trace-Reach :
    {n : ℕ} {A : Pc → Type 0} {s : System} {seen : List ℕ} → Trace n A s seen → Reach n A s
Trace-Reach begin = start
Trace-Reach (more i t lt mv u) = later (Trace-Reach t) (by_thread i lt mv) u

-- The latest `k`, the oldest of them first.
abbrev pub latest : ℕ → List ℕ → List ℕ
latest k seen = reverse (take k seen)

-- What is on the list while a thread that has the lock is at a place.
abbrev Listed : List ℕ → List ℕ → Pc → Type 0
Listed seen items (load_dec l value) = items ≡ latest 99 seen
Listed seen items (store_dec l value c) = items ≡ latest 99 seen
Listed seen items (insert l value) = items ≡ latest 99 seen
Listed seen items _ = items ≡ latest 100 seen

latest_full :
    (seen items : List ℕ) (x : ℕ)
    → x ∷ items ≡ latest 100 seen
    → length (x ∷ items) ≡ 100
    → items ≡ latest 99 seen
latest_full seen items x e h =
    ap tail e
    ∙ tail-reverse-take 99 seen (omega (arith, h, ap length e, length-reverse (take 100 seen)))

latest_short :
    (seen items : List ℕ) → items ≡ latest 100 seen → length items < 100 → items ≡ latest 99 seen
latest_short seen items e h =
    e
    ∙ ap reverse
        (take-short 99 seen (omega (arith, h, ap length e, length-reverse (take 100 seen))))

Move-Listed :
    {m m' : Memory} {p p' : Pc} (seen : List ℕ)
    → Move m p m' p'
    → LocalAt m p
    → LocalAt m' p'
    → Listed seen m.data_list p
    → Listed (entered p seen) m'.data_list p'
Move-Listed seen (lock {l = spin} free) k k' h = h
Move-Listed seen (lock {l = mutex} free) k k' h = h
Move-Listed seen (lock {l = rwlock} free) k k' h = h
Move-Listed seen (release {l = spin}) k k' h = h
Move-Listed seen (release {l = mutex}) k k' h = h
Move-Listed seen (release {l = rwlock}) k k' h = h
Move-Listed {m} seen (room e) k k' h = latest_short seen m.data_list h k'.1
Move-Listed seen (take_first x rest e) k k' h =
    latest_full seen rest x (sym e ∙ h) (ap length (sym e) ∙ k.1)
Move-Listed seen (add_tail {value = v}) k k' h =
    ap (λ t. t ++ v ∷ []) h ∙ sym (reverse-cons v (take 99 seen))
Move-Listed seen frees_list k k' h = refl
Move-Listed seen mv k k' h = h

-- Outside its critical section a thread knows of the list what everybody knows.
Listed-outside :
    (l : Lock) (seen items : List ℕ) (p : Pc)
    → Uses l p
    → holds l p ≡ 0
    → (Listed seen items p → items ≡ latest 100 seen)
      × (items ≡ latest 100 seen → Listed seen items p)
Listed-outside l seen items idle u h = (λ x. x, λ x. x)
Listed-outside l seen items (load_dec k v) u h = absurd (omega (arith, u, h))
Listed-outside l seen items (store_dec k v c) u h = absurd (omega (arith, u, h))
Listed-outside l seen items (insert k v) u h = absurd (omega (arith, u, h))
Listed-outside l seen items p u h = (λ x. x, λ x. x)

entered-outside :
    (l : Lock) (seen : List ℕ) (p : Pc) → Uses l p → holds l p ≡ 0 → entered p seen ≡ seen
entered-outside l seen (insert k v) u h = absurd (omega (arith, u, h))
entered-outside l seen clear_list u h = absurd (omega (arith, u, h))
entered-outside l seen p u h = refl

-- What the threads know of the list and of what is on it.
abbrev Known : ℕ → Lock → List ℕ → Memory → (ℕ → Pc) → Type 0
Known n l seen m pc =
    Guarded n l m pc (Agrees (length m.data_list) m.data_count × (m.data_list ≡ latest 100 seen))
      (λ p. LocalAt m p × Listed seen m.data_list p)

Trace-Known :
    {n : ℕ} (l : Lock) {s : System} {seen : List ℕ}
    → Trace n (Uses l) s seen
    → Known n l seen s.mem s.pc
Trace-Known l begin = record {
  quiet = λ e. ((refl, omega arith), refl);
  inside = λ i lt e. ((refl, omega arith), refl);
}
Trace-Known l (more {s = s} {seen = seen} i {m = m'} {p = p'} t lt mv uses) =
    Step-Guarded i lt mv (Reach-Locked (Trace-Reach t)) (Trace-Known l t)
      (λ out (a, e). (
        (Local-outside l (length s.mem.data_list) s.mem.data_count (s.pc i) u out).1 a,
        (Listed-outside l seen s.mem.data_list (s.pc i) u out).1 e,
      ))
      (λ (k, h). (Move-Local mv k, Move-Listed seen mv k (Move-Local mv k) h))
      (λ out (k, h). (
        (Local-outside l (length m'.data_list) m'.data_count p' u' out).0 k,
        (Listed-outside l seen' m'.data_list p' u' out).0 h,
      ))
      (λ out out' p (k, h).
        let (items, count) = Move-aside l mv u out out' in
        (
          LocalAt-same s.mem m' (sym items) (sym count) refl k,
          subst (λ x. Listed x m'.data_list p) (sym (entered-outside l seen (s.pc i) u out))
              (subst (λ x. Listed seen x p) (sym items) h),
        ))
  where
    u : Uses l (s.pc i)
    u = Reach-Uses l (Trace-Reach t) i

    u' : Uses l p'
    u' = subst (λ q. Uses l q) (moved_self s.pc i p') (uses i)

    seen' : List ℕ
    seen' = entered (s.pc i) seen

-- While all threads use one and the same lock, whenever no thread has it for itself, the list is
-- exactly the latest 100 of the values entered since the last clear, in the order in which they
-- went on it, and `data_count` is its length.
pub one_lock_window :
    {n : ℕ} {s : System} {seen : List ℕ} (l : Lock)
    → Trace n (Uses l) s seen
    → held l s.mem ≡ false
    → (s.mem.data_list ≡ latest max_data_items seen)
      × (s.mem.data_count ≡ length (latest max_data_items seen))
one_lock_window l t free =
    let ((agrees, _), e) = (Trace-Known l t).quiet free in (e, agrees ∙ ap length e)
