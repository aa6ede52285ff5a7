-- ===== src/Complete/Listing.antt =====
-- What the file `processes` shows.
use Prim.Native.Nat.{min}
use model_lib.Prelude.{
  ℕ, zero, suc, ◌+◌, ◌≡◌, refl, inl, inr, true, List, [], ◌∷◌, ◌++◌, some, map, arith, leb,
  if◌then◌else◌, length, take, keep, elem, Option-cases, ==_refl,
}
use model_lib.Kernel.{Kernel, Line, line, num}
use model_lib.Complete.State.{ProcessRecord, Monitor}
use model_lib.Complete.Show.{
  max_shown, record_row, more_line, show_records, processes_header, processes_show,
}
use model_lib.Complete.Invariant.{is_live, IsValid}
use model_lib.Complete.View.{records, view}
use model_lib.Complete.Safety.Add.{passes, process_matches_filter-passes}

module _ (k : Kernel) (m : Monitor) where
  -- The records that the filter lets through, oldest first.
  abbrev pub matching : List ℕ → List ProcessRecord
  matching xs = keep (passes k m.filter) (records m.heap xs)

  -- The lines that show `rs` when there is room for `n` more.
  abbrev pub rows_of : ℕ → List ProcessRecord → List Line
  rows_of n rs =
      map (record_row k) (take n rs) ++ (if leb n (length rs) then more_line ∷ [] else [])

  show_records-rows :
      (n count : ℕ) (xs : List ℕ)
      → count + suc n ≡ max_shown
      → ((a : ℕ) → elem a xs ≡ true → is_live m.heap a ≡ true)
      → show_records k m xs count
        ≡ some (rows_of (suc n) (matching xs), count + min (suc n) (length (matching xs)))
  unfolding show_records
  show_records-rows n count [] e v = ground arith
  show_records-rows zero count (x ∷ xs) e v = elim (Option-cases (m.heap x)) [
    | inl h ↦ absurd (ground (arith, v x (ground (arith, ==_refl x))))
    | inr (r, h) ↦ ground (
      arith,
      process_matches_filter-passes k m x r h,
      show_records-rows zero count xs e (λ a q. v a (ground arith)),
    )
  ]
  show_records-rows (suc n) count (x ∷ xs) e v = elim (Option-cases (m.heap x)) [
    | inl h ↦ absurd (ground (arith, v x (ground (arith, ==_refl x))))
    | inr (r, h) ↦ ground (
      arith,
      process_matches_filter-passes k m x r h,
      show_records-rows (suc n) count xs e (λ a q. v a (ground arith)),
      show_records-rows n (count + 1) xs (omega arith) (λ a q. v a (ground arith)),
    )
  ]

from_zero : (n : ℕ) → 0 + n ≡ n
from_zero n = omega arith

-- On a valid monitor the listing makes no bad access. It shows, oldest first, the records that the
-- filter lets through, at most 50 of them; from 50 on it adds the line that says so; and the total
-- that it prints is the number of records shown.
pub processes_show-rows :
    {k : Kernel} {m : Monitor}
    → IsValid k m
    → processes_show k m
      ≡ some (
          processes_header
          ++ rows_of k m 50 (keep (passes k m.filter) (view m))
          ++ line "\nTotal matching records: %d\n"
              (num (min 50 (length (keep (passes k m.filter) (view m)))) ∷ [])
            ∷ [])
unfolding processes_show
processes_show-rows {k} {m} v = rw (
  show_records-rows k m 49 0 m.process_list refl (λ a e. ground (arith, v.stored.live a)),
  from_zero,
)
