-- ===== src/Concurrency/Listing.antt =====
-- What a read of /proc/concurrency_demo shows of the list.
use model_lib.Prelude.{
  ℕ, zero, suc, ◌+◌, ◌-◌, ◌%◌, ◌^◌, ◌<◌, ◌≡◌, refl, ap, true, false, List, [], ◌∷◌, ◌++◌, map,
  arith, ltb, if◌then◌else◌, length, take,
}
use model_lib.Prelude.Words.{inc32, int_le, int_lt}
use model_lib.Kernel.{Line, line, say, num}
use model_lib.Concurrency.State.{SharedData, Demo}
use model_lib.Concurrency.Interface.{
  item_row, show_loop, show_items, show_header, show_commands, concurrency_show,
}
use model_lib.Concurrency.Invariant.{IsSound}

show_loop-take :
    (n count : ℕ) (items : List SharedData)
    → n + count ≡ 10
    → show_loop items count ≡ map item_row (take n items)
unfolding show_loop
show_loop-take zero count [] h = refl
show_loop-take (suc n) count [] h = refl
show_loop-take zero count (d ∷ items) h =
    let full : int_le 10 count ≡ true = ground (arith, h) in rw (full, show_loop) refl
show_loop-take (suc n) count (d ∷ items) h =
    let more : int_le 10 count ≡ false = ground (arith, h) in
    let next : inc32 count ≡ suc count = omega (arith, h) in
    rw (more, show_loop)
      (rw next (ap (λ t. item_row d ∷ t) (show_loop-take n (suc count) items (omega (arith, h)))))

-- The rows of a list: those of its first ten items, and how many more there are.
abbrev pub spec_rows : List SharedData → List Line
spec_rows [] = say "No data items\n" ∷ []
spec_rows (d ∷ rest) =
    map item_row (take 10 (d ∷ rest))
    ++ (if ltb 10 (length (d ∷ rest))
        then line "... and %d more items\n" (num (length (d ∷ rest) - 10) ∷ []) ∷ []
        else [])

show_items-rows :
    (items : List SharedData) (n : ℕ)
    → n ≡ length items
    → length items < 101
    → show_items items n ≡ spec_rows items
unfolding show_items
show_items-rows [] n e h = refl
show_items-rows (d ∷ rest) n e h =
    rw (show_loop-take 9 1 rest refl, e) (ap (λ t. map item_row (take 10 (d ∷ rest)) ++ t) more)
  where
    k : ℕ
    k = length (d ∷ rest)

    more :
        (if int_lt 10 k
          then line "... and %d more items\n" (num ((k + 2 ^ 32 - 10) % 2 ^ 32) ∷ []) ∷ []
          else [])
        ≡ (if ltb 10 k then line "... and %d more items\n" (num (k - 10) ∷ []) ∷ [] else [])
    more = ground (arith, h)

-- In a sound state a read shows the rows of the first ten items in order, and the number of the
-- others exactly if there are some.
pub concurrency_show-rows :
    {m : Demo}
    → IsSound m
    → concurrency_show m ≡ show_header m ++ spec_rows m.data_list ++ show_commands
unfolding concurrency_show
concurrency_show-rows {m} v =
    rw (show_items-rows m.data_list m.data_count v.counted (omega (arith, v.bounded))) refl
