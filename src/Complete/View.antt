-- ===== src/Complete/View.antt =====
-- The abstract monitor: its records in order of creation, with no addresses and no indexes.
use model_lib.Prelude.{
  ℕ, suc, ◌≡◌, refl, sym, ap, inl, inr, true, List, [], ◌∷◌, ◌++◌, Option, none, some, reverse,
  arith, leb, if◌then◌else◌, length, elem, change_last, Option-cases, ==_refl,
}
use mathlib.Core.List.{reverse-cons, append-nil}
use model_lib.Complete.State.{ProcessRecord, Heap, Monitor, max_process_records}
use model_lib.Complete.Index.{is_running}
use model_lib.Complete.Invariant.{is_live}

abbrev pub cons_record : Option ProcessRecord → List ProcessRecord → List ProcessRecord
cons_record none rs = rs
cons_record (some r) rs = r ∷ rs

abbrev pub records : Heap → List ℕ → List ProcessRecord
records h [] = []
records h (a ∷ xs) = cons_record (h a) (records h xs)

abbrev pub view : Monitor → List ProcessRecord
view m = records m.heap m.process_list

-- A full monitor forgets its oldest record.
abbrev pub trim : List ProcessRecord → List ProcessRecord
trim [] = []
trim (r ∷ rs) = if leb max_process_records (length (r ∷ rs)) then rs else r ∷ rs

-- A new record goes to the end.
abbrev pub spec_add : ProcessRecord → List ProcessRecord → List ProcessRecord
spec_add r rs = trim rs ++ r ∷ []

-- Of the running records of `pid` the newest is changed.
abbrev pub spec_exit : ℕ → (ProcessRecord → ProcessRecord) → List ProcessRecord → List ProcessRecord
spec_exit pid f rs = change_last (is_running pid) f rs

pub records_congr :
    (h h' : Heap) (xs : List ℕ)
    → ((a : ℕ) → elem a xs ≡ true → h' a ≡ h a)
    → records h' xs ≡ records h xs
records_congr h h' [] e = refl
records_congr h h' (x ∷ xs) e =
    rw (e x (ground (arith, ==_refl x)), records_congr h h' xs (λ a q. e a (ground arith)))

pub records-append :
    (h : Heap) (xs ys : List ℕ) → records h (xs ++ ys) ≡ records h xs ++ records h ys
records-append h [] ys = refl
records-append h (x ∷ xs) ys = ground (arith, records-append h xs ys)

pub records-reverse : (h : Heap) (xs : List ℕ) → records h (reverse xs) ≡ reverse (records h xs)
records-reverse h [] = refl
records-reverse h (x ∷ xs) =
    rw (reverse-cons x xs, records-append h (reverse xs) (x ∷ []), records-reverse h xs)
      (elim (Option-cases (h x)) [
        | inl e ↦ rw e (append-nil (reverse (records h xs)))
        | inr (r, e) ↦ rw e (sym (reverse-cons r (records h xs)))
      ])

pub length-records :
    (h : Heap) (xs : List ℕ)
    → ((a : ℕ) → elem a xs ≡ true → is_live h a ≡ true)
    → length (records h xs) ≡ length xs
length-records h [] v = refl
length-records h (x ∷ xs) v = elim (Option-cases (h x)) [
  | inl e ↦ absurd (ground (arith, v x (ground (arith, ==_refl x))))
  | inr (r, e) ↦ rw e (ap suc (length-records h xs (λ a q. v a (ground arith))))
]
