-- ===== src/KernelList/Invariant.antt =====
-- The list of experiments/02_kernel_list.c is bounded and its identifiers rise.
use model_lib.Prelude.{
  ℕ, suc, subst, ◌+◌, ◌^◌, ◌≤◌, ◌<◌, ◌≡◌, refl, ap, ◌∙◌, inl, inr, Bool, true, false, List, [], ◌∷◌,
  ◌++◌, Option, some, arith, leb, length, Bool-cases, length-append,
}
use model_lib.Prelude.Words.{inc32, dec32, int_le, int_le_small}
use model_lib.Prelude.Text.{copy_str}
use model_lib.Kernel.{Line}
use model_lib.KernelList.State.{DemoRecord, ListDemo, max_records}
use model_lib.KernelList.Records.{
  removed_line, make_room, append_record, insert_record, add_record, report_removal,
  remove_record_by_id, clear_all_records,
}
use model_lib.KernelList.Removal.{
  IsRising, IsRising-snoc, IsRising-from, remove_loop-IsRising, length-remove_loop,
}

-- The list after at most `n` additions.
pub record IsSound (n : ℕ) (m : ListDemo) : Type 0 where
  pub counted : m.record_count ≡ length m.record_list
  pub bounded : length m.record_list ≤ max_records
  pub rising : IsRising 1 m.record_list m.next_id
  pub few : m.next_id ≤ n + 1

IsRising-lo : (lo hi : ℕ) (rs : List DemoRecord) → IsRising lo rs hi → lo ≤ hi
IsRising-lo lo hi [] h = h
IsRising-lo lo hi (r ∷ rs) h = omega (arith, h.0, IsRising-lo (suc r.id) hi rs h.1)

make_room-IsSound :
    {n : ℕ} {m : ListDemo}
    → IsSound n m
    → (m' : ListDemo) × (out : List Line) × (make_room m ≡ some (m', out))
      × IsSound n m'
      × (length m'.record_list < max_records)
unfolding make_room
make_room-IsSound {n} {m} v = go m.record_list refl
  where
    test : int_le max_records m.record_count ≡ leb max_records m.record_count
    test =
        int_le_small max_records m.record_count (omega arith) (omega (arith, v.counted, v.bounded))

    behind :
        (r : DemoRecord) (rs : List DemoRecord) → m.record_list ≡ r ∷ rs → IsRising 1 rs m.next_id
    behind r rs q =
        let h : IsRising 1 (r ∷ rs) m.next_id = subst (λ t. IsRising 1 t m.next_id) q v.rising in
        IsRising-from rs m.next_id (omega arith) h.1

    go :
        (rs : List DemoRecord)
        → m.record_list ≡ rs
        → (m' : ListDemo) × (out : List Line) × (make_room m ≡ some (m', out))
          × IsSound n m'
          × (length m'.record_list < max_records)
    go [] q = (m, [], rw (test, v.counted) (rw q refl), v, omega (arith, ap length q))
    go (r ∷ rs) q = elim (Bool-cases (leb max_records m.record_count)) [
      | inl e ↦ (
        record m { record_list = rs; record_count = dec32 m.record_count },
        removed_line "kernel_list: Removed oldest record ID=%d, Name=%s\n" r ∷ [],
        rw (test ∙ e) (rw q refl),
        record {
          counted = omega (arith, v.counted, ap length q, v.bounded);
          bounded = omega (arith, ap length q, v.bounded);
          rising = behind r rs q;
          few = v.few;
        },
        omega (arith, ap length q, v.bounded),
      )
      | inr e ↦ (m, [], rw (test ∙ e) refl, v, ground arith)
    ]

-- What a step leaves, and that it is sound.
abbrev pub Keeps : ℕ → Option (ListDemo × List Line) → Type 0
Keeps n r = (m' : ListDemo) × (out : List Line) × (r ≡ some (m', out)) × IsSound n m'

pub grow : {n n' : ℕ} {m : ListDemo} → n ≤ n' → IsSound n m → IsSound n' m
grow le v = record {
  counted = v.counted;
  bounded = v.bounded;
  rising = v.rising;
  few = omega (arith, v.few);
}

append_record-IsSound :
    {n : ℕ} {m : ListDemo} (now : ℕ) (name : List ℕ)
    → IsSound n m
    → n + 1 < 2 ^ 31
    → length m.record_list < max_records
    → IsSound (n + 1) (append_record now name m)
unfolding append_record
append_record-IsSound {n} {m} now name v small room =
    let r : DemoRecord = record { id = m.next_id; name = copy_str 32 name; timestamp = now } in
    let next : inc32 m.next_id ≡ suc m.next_id = omega (arith, v.few) in
    record {
      counted = omega (arith, v.counted, room, length-append m.record_list (r ∷ []));
      bounded = omega (arith, room, length-append m.record_list (r ∷ []));
      rising = rw next (IsRising-snoc 1 m.record_list r v.rising);
      few = omega (arith, next, v.few);
    }

pub add_record-IsSound :
    {n : ℕ} {m : ListDemo} (now : ℕ) (alloc : Bool) (name : List ℕ)
    → IsSound n m
    → n + 1 < 2 ^ 31
    → Keeps (n + 1) (add_record now alloc name m)
unfolding add_record
add_record-IsSound now false name v small =
    let (m', out, e, w, room) = make_room-IsSound v in
    (m', out ++ (insert_record now false name m').1, rw e refl, grow (omega arith) w)
add_record-IsSound now true name v small =
    let (m', out, e, w, room) = make_room-IsSound v in
    (
      append_record now name m',
      out ++ (insert_record now true name m').1,
      rw e refl,
      append_record-IsSound now name w small room,
    )

pub remove_record_by_id-IsSound :
    {n : ℕ} {m : ListDemo} (id : ℕ) → IsSound n m → IsSound n (remove_record_by_id id m).0
unfolding remove_record_by_id
remove_record_by_id-IsSound {n} {m} id v = elim (length-remove_loop id m.record_list) [
  | inl e ↦ rw (e, report_removal) v
  | inr (r, e, l) ↦
      rw (e, report_removal)
        (record {
          counted = omega (arith, l, v.counted, v.bounded);
          bounded = omega (arith, l, v.bounded);
          rising = remove_loop-IsRising id 1 m.record_list m.next_id v.rising;
          few = v.few;
        })
]

pub clear_all_records-IsSound :
    {n : ℕ} {m : ListDemo} → IsSound n m → IsSound n (clear_all_records m).0
unfolding clear_all_records
clear_all_records-IsSound {n} {m} v = record {
  counted = refl;
  bounded = omega arith;
  rising = IsRising-lo 1 m.next_id m.record_list v.rising;
  few = v.few;
}
