-- ===== src/Concurrency/Starts.antt =====
-- Two start commands of experiments/04_concurrency_control.c that overlap, one access to the shared
-- variables at a time.
use model_lib.Prelude.{
  ℕ, zero, suc, subst, ◌+◌, ◌≤◌, ◌<◌, ◌≡◌, refl, sym, ap, ◌∙◌, inl, inr, Bool, true, false, not,
  List, [], ◌∷◌, ◌++◌, Option, none, some, arith, ◌==◌, length, set, elem, unlink, IsDistinct,
  IsDistinct-keep, IsDistinct-snoc, length-append, unlink_absent, Bool-cases, ==_iff,
}
use native.Mathlib.Nat.{add_comm}
use model_lib.Concurrency.State.{Demo, max_workers}
use model_lib.Concurrency.Workers.{stop_loop, stop_worker_threads}
use model_lib.Concurrency.Items.{clear_all_data}
use model_lib.Concurrency.Interface.{concurrency_exit}
use model_lib.Concurrency.Invariant.{IsSound}

-- Where a command stands in `start_worker_threads`: past the test, in the loop at an index, with the
-- thread of that index made and not yet stored, or out. `made` is how many threads it has made.
pub data Place : Type 0 where
  outside : Place
  passed : Place
  at_index : (i made : ℕ) → Place
  holding : (i made : ℕ) → Option ℕ → Place
  ended : (made : ℕ) → Place
  refused : Place

-- `kthread_run` gives a thread that is not alive yet, or fails; a failure is stored and is then
-- replaced by NULL, and both are `none`.
pub data Move (m : Demo) : Place → Demo → Place → Type 0 where
  passes : m.worker_running ≡ 0 → Move m outside m passed
  refuses : (m.worker_running == 0) ≡ false → Move m outside m refused
  sets_running : Move m passed (record m { worker_running = 1 }) (at_index 0 0)
  makes :
      {i made : ℕ} (t : ℕ)
      → i < max_workers
      → elem t m.alive ≡ false
      → Move m
          (at_index i made)
          (record m { alive = m.alive ++ t ∷ [] })
          (holding i (suc made) (some t))
  fails : {i made : ℕ} → i < max_workers → Move m (at_index i made) m (holding i made none)
  stores :
      {i made : ℕ} {r : Option ℕ}
      → Move m
          (holding i made r)
          (record m { worker_threads = set m.worker_threads i r })
          (at_index (suc i) made)
  ends : {made : ℕ} → Move m (at_index max_workers made) m (ended made)

-- The states that two commands reach from `m0`, in any order of their moves.
pub data Reach (m0 : Demo) : Demo → Place → Place → Type 0 where
  start : Reach m0 m0 outside outside
  first : {m m' : Demo} {p p' q : Place} → Reach m0 m p q → Move m p m' p' → Reach m0 m' p' q
  second : {m m' : Demo} {p q q' : Place} → Reach m0 m p q → Move m q m' q' → Reach m0 m' p q'

abbrev made_by : Place → ℕ
made_by outside = 0
made_by passed = 0
made_by (at_index i made) = made
made_by (holding i made r) = made
made_by (ended made) = made
made_by refused = 0

abbrev is_past : Place → Bool
is_past outside = false
is_past passed = false
is_past refused = false
is_past _ = true

-- What holds of the threads while `made` of them have been made.
record Counted (m : Demo) (made : ℕ) : Type 0 where
  number : length m.alive ≡ made
  distinct : IsDistinct m.alive
  places : length m.worker_threads ≡ max_workers

length-set : (xs : List (Option ℕ)) (i : ℕ) (v : Option ℕ) → length (set xs i v) ≡ length xs
length-set [] i v = refl
length-set (x ∷ xs) zero v = refl
length-set (x ∷ xs) (suc i) v = ap suc (length-set xs i v)

Move-Counted :
    {m m' : Demo} {p p' : Place} (others : ℕ)
    → Move m p m' p'
    → Counted m (made_by p + others)
    → Counted m' (made_by p' + others)
Move-Counted {m} others (makes t lt new) c = record {
  number = omega (arith, length-append m.alive (t ∷ []), c.number);
  distinct = IsDistinct-snoc t m.alive c.distinct new;
  places = c.places;
}
Move-Counted {m} others (stores {i = i} {r = r}) c = record {
  number = c.number;
  distinct = c.distinct;
  places = length-set m.worker_threads i r ∙ c.places;
}
Move-Counted others (passes e) c = c
Move-Counted others (refuses e) c = c
Move-Counted others sets_running c = record {
  number = c.number;
  distinct = c.distinct;
  places = c.places;
}
Move-Counted others (fails lt) c = c
Move-Counted others ends c = c

-- Once a command is past the test and has said so, the workers count as running.
Move-running :
    {m m' : Demo} {p p' : Place}
    → Move m p m' p'
    → (is_past p ≡ true → m.worker_running ≡ 1)
    → is_past p' ≡ true
    → m'.worker_running ≡ 1
Move-running sets_running h e = refl
Move-running (makes t lt new) h e = h refl
Move-running (fails lt) h e = h refl
Move-running stores h e = h refl
Move-running ends h e = h refl
Move-running (passes x) h e = absurd (ground arith)
Move-running (refuses x) h e = absurd (ground arith)

Move-still :
    {m m' : Demo} {p p' : Place} → Move m p m' p' → m.worker_running ≡ 1 → m'.worker_running ≡ 1
Move-still sets_running h = refl
Move-still mv h = h

length-unlink : (t : ℕ) (xs : List ℕ) → IsDistinct xs → length xs ≤ length (unlink t xs) + 1
length-unlink t [] d = omega arith
length-unlink t (x ∷ xs) d = elim (Bool-cases (x == t)) [
  | inl e ↦ ground (arith, unlink_absent t xs (ap (λ a. elem a xs) (sym ((==_iff x t).0 e)) ∙ d.0))
  | inr e ↦ ground (arith, length-unlink t xs d.1)
]

-- The loop of `stop_worker_threads` stops at most one thread for each entry of the array.
length-stop_loop :
    (ts : List (Option ℕ)) (alive : List ℕ)
    → IsDistinct alive
    → length alive ≤ length (stop_loop ts alive).1 + length ts
unfolding stop_loop
length-stop_loop [] alive d = omega arith
length-stop_loop (none ∷ ts) alive d = omega (arith, length-stop_loop ts alive d)
length-stop_loop (some t ∷ ts) alive d = omega (
  arith,
  length-unlink t alive d,
  length-stop_loop ts (unlink t alive) (IsDistinct-keep (λ x. not (x == t)) alive d),
)

module _ {m0 : Demo} (v : IsSound m0) (e : m0.worker_running ≡ 0)
    (places : length m0.worker_threads ≡ max_workers) where
  Reach-Counted : {m : Demo} {p q : Place} → Reach m0 m p q → Counted m (made_by p + made_by q)
  Reach-Counted start = record {
    number = ap length (v.stopped e);
    distinct = rw (v.stopped e) tt;
    places = places;
  }
  Reach-Counted (first {q = q} r mv) = Move-Counted (made_by q) mv (Reach-Counted r)
  Reach-Counted (second {m = m} {m' = m'} {p = p} {q = q} {q' = q'} r mv) =
      subst (λ n. Counted m' n) (add_comm (made_by q') (made_by p))
        (Move-Counted (made_by p) mv
          (subst (λ n. Counted m n) (add_comm (made_by p) (made_by q)) (Reach-Counted r)))

Reach-running :
    {m0 m : Demo} {p q : Place} → Reach m0 m p q → is_past p ≡ true → m.worker_running ≡ 1
Reach-running start past = absurd (ground arith)
Reach-running (first r mv) past = Move-running mv (Reach-running r) past
Reach-running (second r mv) past = Move-still mv (Reach-running r past)

-- Let two start commands overlap in any way, from a sound state in which no worker runs, and let
-- both have found that none is running. If they have made `k` and `k'` threads, unloading then leaves
-- all but five of these alive at least: ten threads made, five left.
pub concurrency_exit-two_starts :
    {m0 m : Demo} {k k' : ℕ}
    → IsSound m0
    → m0.worker_running ≡ 0
    → length m0.worker_threads ≡ max_workers
    → Reach m0 m (ended k) (ended k')
    → k + k' ≤ length (concurrency_exit m).0.alive + max_workers
unfolding concurrency_exit stop_worker_threads clear_all_data
concurrency_exit-two_starts {m = m} v e places r =
    let c = Reach-Counted v e places r in
    rw (Reach-running r refl)
      (omega (arith, length-stop_loop m.worker_threads m.alive c.distinct, c.number, c.places))
