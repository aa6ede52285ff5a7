-- ===== src/Complete/Safety/Search.antt =====
-- `find_process_by_pid` finds the newest running record of a process.
use model_lib.Prelude.{
  ℕ, ◌≡◌, refl, sym, ap, ap₂, ◌∙◌, inl, inr, Bool, true, false, List, [], ◌∷◌, Option, none, some,
  reverse, arith, ◌==◌, keep, elem, find_first, change_first, IsDistinct, Bool-cases, Option-cases,
  elem-reverse, elem-keep, keep-reverse, ==_refl, ==_iff,
}
use model_lib.Kernel.{Kernel}
use model_lib.Complete.State.{ProcessRecord, Heap, Monitor, update}
use model_lib.Complete.Index.{is_running, find_in_chain, find_process_by_pid}
use model_lib.Complete.Invariant.{is_live, in_bucket, IsStored}
use model_lib.Complete.View.{cons_record, records, records_congr}
use model_lib.Complete.Safety.Lemmas.{update_absent, update_self}

-- There is a running record of `pid` at the address.
abbrev pub runs_at : Heap → ℕ → ℕ → Bool
runs_at h pid a = elim (h a) [ none ↦ false | some r ↦ is_running pid r ]

abbrev pub AllLive : Heap → List ℕ → Type 0
AllLive h xs = (a : ℕ) → elem a xs ≡ true → is_live h a ≡ true

find_in_chain-first :
    (h : Heap) (pid : ℕ) (xs : List ℕ)
    → AllLive h xs
    → find_in_chain h pid xs ≡ some (find_first (runs_at h pid) xs)
unfolding find_in_chain
find_in_chain-first h pid [] v = refl
find_in_chain-first h pid (x ∷ xs) v = elim (Option-cases (h x)) [
  | inl e ↦ absurd (ground (arith, v x (ground (arith, ==_refl x))))
  | inr (r, e) ↦ ground (arith, find_in_chain-first h pid xs (λ a q. v a (ground arith)))
]

find_first-keep :
    (p q : ℕ → Bool) (xs : List ℕ)
    → ((a : ℕ) → p a ≡ true → q a ≡ true)
    → find_first p (keep q xs) ≡ find_first p xs
find_first-keep p q [] h = refl
find_first-keep p q (x ∷ xs) h = ground (arith, h x, find_first-keep p q xs h)

bucket_of_running :
    (k : Kernel) (h : Heap) (pid a : ℕ)
    → runs_at h pid a ≡ true
    → in_bucket k h (k.hash_min pid) a ≡ true
bucket_of_running k h pid a e = elim (Option-cases (h a)) [
  | inl q ↦ absurd (ground arith)
  | inr (r, q) ↦ rw q (rw ((==_iff r.pid pid).0 (ground arith)) (==_refl (k.hash_min pid)))
]

-- On a valid monitor the lookup makes no bad access and finds the newest running record.
pub find_process_by_pid-newest :
    {k : Kernel} {spare : List ℕ} {m : Monitor} (pid : ℕ)
    → IsStored k spare m
    → find_process_by_pid k m pid ≡ some (find_first (runs_at m.heap pid) (reverse m.process_list))
unfolding find_process_by_pid
find_process_by_pid-newest {k} {spare} {m} pid v =
    ap (find_in_chain m.heap pid) chain
    ∙ find_in_chain-first m.heap pid (keep bucket (reverse m.process_list)) all_live
    ∙ ap some (
        find_first-keep (runs_at m.heap pid) bucket (reverse m.process_list)
          (bucket_of_running k m.heap pid))
  where
    bucket : ℕ → Bool
    bucket = in_bucket k m.heap (k.hash_min pid)

    chain : m.process_hash (k.hash_min pid) ≡ keep bucket (reverse m.process_list)
    chain = v.hashed (k.hash_min pid) ∙ sym (keep-reverse bucket m.process_list)

    all_live : AllLive m.heap (keep bucket (reverse m.process_list))
    all_live a e = ground (
      arith,
      v.live a,
      elem-keep bucket a (reverse m.process_list),
      elem-reverse a m.process_list,
    )

-- What is found, as a record.
pub find_first-records :
    (h : Heap) (pid : ℕ) (xs : List ℕ)
    → find_first (is_running pid) (records h xs)
      ≡ elim (find_first (runs_at h pid) xs) [ none ↦ none | some a ↦ h a ]
find_first-records h pid [] = refl
find_first-records h pid (x ∷ xs) = elim (Option-cases (h x)) [
  | inl e ↦ ground (arith, find_first-records h pid xs)
  | inr (r, e) ↦ ground (arith, find_first-records h pid xs)
]

pub find_first-elem :
    (p : ℕ → Bool) (a : ℕ) (xs : List ℕ) → find_first p xs ≡ some a → elem a xs ≡ true
find_first-elem p a [] e = cc
find_first-elem p a (x ∷ xs) e = elim (Bool-cases (p x)) [
  | inl q ↦ ground (arith, ==_refl x)
  | inr q ↦ ground (arith, find_first-elem p a xs)
]

change-here :
    (h : Heap) (pid a x : ℕ) (r r' : ProcessRecord) (f : ProcessRecord → ProcessRecord)
    (xs : List ℕ)
    → elem x xs ≡ false
    → x ≡ a
    → h x ≡ some r
    → h a ≡ some r'
    → is_running pid r ≡ true
    → records (update h a (some (f r'))) (x ∷ xs)
      ≡ change_first (is_running pid) f (records h (x ∷ xs))
change-here h pid a x r r' f xs d e q q' c =
    ap₂ cons_record first rest ∙ ap (λ s. f s ∷ records h xs) same ∙ sym changed
  where
    same : r' ≡ r
    same = cc (ap h e)

    changed : change_first (is_running pid) f (records h (x ∷ xs)) ≡ f r ∷ records h xs
    changed = rw (q, c)

    first : update h a (some (f r')) x ≡ some (f r')
    first = ap (update h a (some (f r'))) e ∙ update_self h a (some (f r'))

    rest : records (update h a (some (f r'))) xs ≡ records h xs
    rest =
        records_congr h (update h a (some (f r'))) xs
          (λ b w. update_absent h a b (some (f r')) xs (ap (λ y. elem y xs) (sym e) ∙ d) w)

change-there :
    (h : Heap) (pid a x : ℕ) (s : Option ProcessRecord) (f : ProcessRecord → ProcessRecord)
    (xs : List ℕ)
    → elem x xs ≡ false
    → elem a xs ≡ true
    → runs_at h pid x ≡ false
    → records (update h a s) xs ≡ change_first (is_running pid) f (records h xs)
    → records (update h a s) (x ∷ xs) ≡ change_first (is_running pid) f (records h (x ∷ xs))
change-there h pid a x s f xs d m c ih = elim (Bool-cases (x == a)) [
  | inl q ↦ absurd (ground (arith, d, m, ap (λ y. elem y xs) ((==_iff x a).0 q)))
  | inr q ↦ elim (Option-cases (h x)) [
    | inl e ↦ rw (q, e) ih
    | inr (r, e) ↦ rw (q, e) (ground (arith, ih))
  ]
]

-- Writing the record that was found changes the first running one, and no other.
pub records-change :
    (h : Heap) (pid a : ℕ) (r : ProcessRecord) (f : ProcessRecord → ProcessRecord) (xs : List ℕ)
    → IsDistinct xs
    → find_first (runs_at h pid) xs ≡ some a
    → h a ≡ some r
    → records (update h a (some (f r))) xs ≡ change_first (is_running pid) f (records h xs)
records-change h pid a r f [] d e q = refl
records-change h pid a r f (x ∷ xs) d e q = elim (Bool-cases (runs_at h pid x)) [
  | inl c ↦ elim (Option-cases (h x)) [
    | inl w ↦ absurd (ground arith)
    | inr (s, w) ↦ change-here h pid a x s r f xs d.0 (ground arith) w q (ground arith)
  ]
  | inr c ↦
      let rest : find_first (runs_at h pid) xs ≡ some a = rw c at e in
      change-there h pid a x (some (f r)) f xs d.0 (find_first-elem (runs_at h pid) a xs rest) c
        (records-change h pid a r f xs d.1 rest q)
]

pub change_first-none :
    (h : Heap) (pid : ℕ) (f : ProcessRecord → ProcessRecord) (xs : List ℕ)
    → find_first (runs_at h pid) xs ≡ none
    → change_first (is_running pid) f (records h xs) ≡ records h xs
change_first-none h pid f [] e = refl
change_first-none h pid f (x ∷ xs) e = elim (Option-cases (h x)) [
  | inl q ↦ ground (arith, change_first-none h pid f xs)
  | inr (r, q) ↦ ground (arith, change_first-none h pid f xs)
]
