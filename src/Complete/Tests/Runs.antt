-- ===== src/Complete/Tests/Runs.antt =====
-- Runs of experiments/05_complete_monitor.c that add, find, show and free records.
use model_lib.Prelude.{
  ◌∙◌, ◌≡◌, refl, sym, false, [], ◌∷◌, ◌++◌, some, reverse, ◌==◌, if◌then◌else◌, length, keep,
  find_first,
}
use model_lib.Prelude.Text.{codes}
use model_lib.Kernel.{Tree, in_order, num, line}
use model_lib.Complete.State.{Monitor}
use model_lib.Complete.Index.{find_in_chain, find_process_by_pid, link_node}
use model_lib.Complete.Events.{new_record, add_process_record, mark_process_exit}
use model_lib.Complete.Show.{processes_header, processes_show}
use model_lib.Complete.Invariant.{is_live, IsValid}
use model_lib.Complete.View.{view}
use model_lib.Complete.Safety.Planting.{place, link_node-place}
use model_lib.Complete.Safety.Search.{runs_at, find_process_by_pid-newest}
use model_lib.Complete.Safety.Add.{Added, passes, created_message, add_process_record_refines}
use model_lib.Complete.Safety.Exit.{Exited, newest_running, exit_message, mark_process_exit_refines}
use model_lib.Complete.Spec.{abstract_of, run_event, spec_step}
use model_lib.Complete.Refinement.{Refines, spec_run, step-Refines, Reach-refines}
use model_lib.Complete.Listing.{rows_of, processes_show-rows}
use model_lib.Complete.Tests.{
  toy, toy-IsRbLib, first_fork, second_fork, shell_exit, forked_once, forked_twice, Reach-twice,
  twice-IsValid,
}

Reach-refines_example :
    IsValid toy forked_twice
    × (abstract_of forked_twice ≡ spec_run toy (second_fork ∷ first_fork ∷ []))
Reach-refines_example = Reach-refines toy-IsRbLib Reach-twice

step-Refines_example :
    Refines toy
      (run_event toy shell_exit forked_twice)
      (spec_step toy shell_exit (abstract_of forked_twice))
step-Refines_example = step-Refines toy-IsRbLib twice-IsValid shell_exit tt

twice-enabled : (forked_twice.monitoring_enabled == 0) ≡ false
unfolding forked_twice forked_once
twice-enabled = refl

nine_free : is_live forked_twice.heap 9 ≡ false
unfolding forked_twice forked_once
nine_free = refl

add_process_record_refines_example :
    (m' : Monitor) × (add_process_record toy 1200 (some 9) 50 42 (codes "ls") forked_twice
      ≡ some (
        m',
        if passes toy forked_twice.filter (new_record toy 1200 50 42 (codes "ls"))
            then created_message toy-IsRbLib twice-IsValid 9 nine_free 1200 50 42
                (codes "ls")
                twice-enabled
            else [],
      ))
    × Added toy 9 (new_record toy 1200 50 42 (codes "ls")) forked_twice m'
add_process_record_refines_example =
    add_process_record_refines toy-IsRbLib twice-IsValid 9 nine_free 1200 50 42 (codes "ls")
      twice-enabled

mark_process_exit_refines_example :
    (m' : Monitor) × (mark_process_exit toy 1500 42 3 forked_twice
      ≡ some (m', exit_message toy 1500 42 3 forked_twice (newest_running 42 (view forked_twice))))
    × Exited toy 1500 42 3 forked_twice m'
mark_process_exit_refines_example = mark_process_exit_refines twice-IsValid 1500 42 3 twice-enabled

find_process_by_pid-newest_example :
    find_process_by_pid toy forked_twice 42
    ≡ some (find_first (runs_at forked_twice.heap 42) (reverse forked_twice.process_list))
find_process_by_pid-newest_example = find_process_by_pid-newest 42 twice-IsValid.stored

-- It is the second record that the lookup finds.
found_second : find_process_by_pid toy forked_twice 42 ≡ some (some 8)
unfolding forked_twice forked_once find_process_by_pid find_in_chain
found_second = refl

processes_show-rows_example :
    processes_show toy forked_twice
    ≡ some (
        processes_header
        ++ rows_of toy forked_twice 50 (keep (passes toy forked_twice.filter) (view forked_twice))
        ++ line "\nTotal matching records: %d\n" (
            num (
              Prim.Native.Nat.min 50
                (length (keep (passes toy forked_twice.filter) (view forked_twice))))
            ∷ [])
          ∷ [])
processes_show-rows_example = processes_show-rows twice-IsValid

link_node-place_example :
    (t' : Tree) × (link_node forked_twice.heap 9 1050 forked_twice.process_tree ≡ some t')
    × (in_order t' ≡ place forked_twice.heap 1050 9 (in_order forked_twice.process_tree))
unfolding forked_twice forked_once
link_node-place_example =
    link_node-place forked_twice.heap 1050 9 0 forked_twice.process_tree
      (λ x e. twice-IsValid.stored.live x ∙ sym (twice-IsValid.stored.planted x) ∙ e)
      twice-IsValid.stored.sorted
