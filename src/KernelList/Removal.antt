-- ===== src/KernelList/Removal.antt =====
-- Which record "del" removes from the list of experiments/02_kernel_list.c.
use model_lib.Prelude.{
  ℕ, suc, ◌≤◌, ◌<◌, ◌≡◌, refl, sym, ap, ◌⊎◌, inl, inr, false, not, List, [], ◌∷◌, ◌++◌, none, some,
  arith, ◌==◌, length, keep, find_first, Bool-cases, Option-cases, ==_iff,
}
use model_lib.KernelList.State.{DemoRecord, ListDemo}
use model_lib.KernelList.Records.{remove_loop, remove_record_by_id}

-- The identifiers rise, from `lo` on, and stay below `hi`.
abbrev pub IsRising : ℕ → List DemoRecord → ℕ → Type 0
IsRising lo [] hi = lo ≤ hi
IsRising lo (r ∷ rs) hi = (lo ≤ r.id) × IsRising (suc r.id) rs hi

pub IsRising-snoc :
    (lo : ℕ) (rs : List DemoRecord) (r : DemoRecord)
    → IsRising lo rs r.id
    → IsRising lo (rs ++ r ∷ []) (suc r.id)
IsRising-snoc lo [] r h = (h, omega arith)
IsRising-snoc lo (q ∷ rs) r h = (h.0, IsRising-snoc (suc q.id) rs r h.1)

pub IsRising-from :
    {lo lo' : ℕ} (rs : List DemoRecord) (hi : ℕ) → lo' ≤ lo → IsRising lo rs hi → IsRising lo' rs hi
IsRising-from [] hi le h = omega (arith, h)
IsRising-from (r ∷ rs) hi le h = (omega (arith, h.0), h.1)

-- No record behind one has its identifier.
keep-IsRising :
    (id lo : ℕ) (rs : List DemoRecord) (hi : ℕ)
    → id < lo
    → IsRising lo rs hi
    → keep (λ r. not (r.id == id)) rs ≡ rs
keep-IsRising id lo [] hi l h = refl
keep-IsRising id lo (r ∷ rs) hi l h =
    let other : (r.id == id) ≡ false = ground (arith, h.0) in
    rw other (ap (λ t. r ∷ t) (keep-IsRising id (suc r.id) rs hi (omega (arith, h.0)) h.1))

remove_loop-found :
    (id lo : ℕ) (rs : List DemoRecord) (hi : ℕ)
    → IsRising lo rs hi
    → remove_loop id rs ≡ (find_first (λ r. r.id == id) rs, keep (λ r. not (r.id == id)) rs)
unfolding remove_loop
remove_loop-found id lo [] hi h = refl
remove_loop-found id lo (r ∷ rs) hi h = elim (Bool-cases (r.id == id)) [
  | inl e ↦
      let same : r.id ≡ id = (==_iff r.id id).0 e in
      ground (arith, keep-IsRising id (suc r.id) rs hi (omega (arith, same)) h.1)
  | inr e ↦ ground (arith, remove_loop-found id (suc r.id) rs hi h.1)
]

pub remove_loop-IsRising :
    (id lo : ℕ) (rs : List DemoRecord) (hi : ℕ)
    → IsRising lo rs hi
    → IsRising lo (remove_loop id rs).1 hi
unfolding remove_loop
remove_loop-IsRising id lo [] hi h = h
remove_loop-IsRising id lo (r ∷ rs) hi h = elim (Bool-cases (r.id == id)) [
  | inl e ↦ rw (e, remove_loop) (IsRising-from rs hi (omega (arith, h.0)) h.1)
  | inr e ↦ rw (e, remove_loop) (h.0, remove_loop-IsRising id (suc r.id) rs hi h.1)
]

pub length-remove_loop :
    (id : ℕ) (rs : List DemoRecord)
    → ((remove_loop id rs).0 ≡ none)
      ⊎ ((r : DemoRecord) × ((remove_loop id rs).0 ≡ some r)
          × (suc (length (remove_loop id rs).1) ≡ length rs))
unfolding remove_loop
length-remove_loop id [] = inl refl
length-remove_loop id (r ∷ rs) = elim (Bool-cases (r.id == id)) [
  | inl e ↦ inr (r, ground arith, ground arith)
  | inr e ↦ elim (length-remove_loop id rs) [
    | inl q ↦ inl (ground arith)
    | inr (f, q, l) ↦ inr (f, ground arith, ground arith)
  ]
]

keep_all :
    (id : ℕ) (rs : List DemoRecord)
    → find_first (λ r. r.id == id) rs ≡ none
    → keep (λ r. not (r.id == id)) rs ≡ rs
keep_all id [] e = refl
keep_all id (r ∷ rs) e = elim (Bool-cases (r.id == id)) [
  | inl q ↦ absurd (ground arith)
  | inr q ↦ ground (arith, keep_all id rs)
]

-- On a list with rising identifiers the deletion leaves exactly the records with another
-- identifier, in order, though the loop stops at the first hit. The next identifier stays.
pub remove_record_by_id-exact :
    (id lo hi : ℕ) (m : ListDemo)
    → IsRising lo m.record_list hi
    → ((remove_record_by_id id m).0.record_list ≡ keep (λ r. not (r.id == id)) m.record_list)
      × ((remove_record_by_id id m).0.next_id ≡ m.next_id)
unfolding remove_record_by_id
remove_record_by_id-exact id lo hi m h =
    elim (Option-cases (find_first (λ r. r.id == id) m.record_list)) [
      | inl e ↦
          rw (remove_loop-found id lo m.record_list hi h)
            (rw e (sym (keep_all id m.record_list e), refl))
      | inr (r, e) ↦ rw (remove_loop-found id lo m.record_list hi h) (rw e (refl, refl))
    ]
