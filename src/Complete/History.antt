-- ===== src/Complete/History.antt =====
-- What holds of the statistics and the records after any history.
use model_lib.Prelude.{
  ℕ, ◌≡◌, refl, sym, ap, subst, ◌∙◌, inl, inr, List, [], ◌∷◌, Option, none, some, reverse, arith,
  ◌==◌, leb, length, Bool-cases, Option-cases, All, All-append, All-reverse, All-change_first,
  All-find_first,
}
use model_lib.Prelude.Text.{codes, str_eq}
use model_lib.Kernel.{Kernel, Task}
use model_lib.Command.{Received, command, rejected}
use model_lib.Command.Receive.{spec_received}
use model_lib.Complete.State.{ProcessRecord, Monitor}
use model_lib.Complete.Index.{is_running}
use model_lib.Complete.Matches.{lifetime_of}
use model_lib.Complete.Events.{new_record, count_created, count_exited, exited_record}
use model_lib.Complete.Invariant.{IsRbLib}
use model_lib.Complete.View.{trim, spec_exit}
use model_lib.Complete.Safety.Exit.{newest_running}
use model_lib.Complete.Spec.{
  Abstract, abstract_of, Event, fork, exit, write_filter, write_control, spec_fork, spec_mark,
  spec_write_filter, spec_write_control, spec_step,
}
use model_lib.Complete.Refinement.{Reach, spec_run, Reach-refines}
use model_lib.Complete.Stats.{IsBalanced, count_created-IsBalanced, count_exited-IsBalanced}

-- No processor time was ever counted.
abbrev pub IsIdle : ProcessRecord → Type 0
IsIdle r = r.cpu_time ≡ 0

record Sound (s : Abstract) : Type 0 where
  balanced : IsBalanced s.stats
  no_time : s.stats.total_cpu_time ≡ 0
  idle : All IsIdle s.rows

trim-IsIdle : (rs : List ProcessRecord) → All IsIdle rs → All IsIdle (trim rs)
trim-IsIdle [] h = tt
trim-IsIdle (r ∷ rs) h = elim (Bool-cases (leb 1000 (length (r ∷ rs)))) [
  | inl e ↦ rw e h.1
  | inr e ↦ rw e h
]

fork-Sound :
    (k : Kernel) (now : ℕ) (alloc : Option ℕ) (task : Task) (s : Abstract)
    → Sound s
    → Sound (spec_fork k now alloc task s)
unfolding new_record count_created
fork-Sound k now none task s v = v
fork-Sound k now (some a) task s v = elim (Bool-cases (s.enabled == 0)) [
  | inl e ↦ rw e v
  | inr e ↦ rw e (record {
    balanced = count_created-IsBalanced s.stats v.balanced;
    no_time = v.no_time;
    idle = All-append IsIdle (trim s.rows) _ (trim-IsIdle s.rows v.idle) (refl, tt);
  })
]

mark-Sound :
    (k : Kernel) (now : ℕ) (task : Task) (s : Abstract) → Sound s → Sound (spec_mark k now task s)
unfolding count_exited
mark-Sound k now task s v = elim (Bool-cases (s.enabled == 0)) [
  | inl e ↦ rw e v
  | inr e ↦ rw e (elim (Option-cases (newest_running task.pid s.rows)) [
    | inl q ↦ record { balanced = rw q v.balanced; no_time = rw q v.no_time; idle = changed }
    | inr (r, q) ↦ record {
      balanced = rw q (
          count_exited-IsBalanced r.cpu_time (lifetime_of k (exited_record now task.code r)) s.stats
            v.balanced);
      no_time = rw q (
          omega (
            arith,
            v.no_time,
            All-find_first IsIdle (is_running task.pid) (reverse s.rows)
                (All-reverse IsIdle s.rows v.idle) q,
          ));
      idle = changed;
    }
  ])
]
  where
    changed : All IsIdle (spec_exit task.pid (exited_record now task.code) s.rows)
    changed = All-reverse IsIdle _ (
        All-change_first IsIdle (is_running task.pid) (exited_record now task.code) (reverse s.rows)
          (λ r h. h) (All-reverse IsIdle s.rows v.idle))

Sound-settings : (on : ℕ) (s : Abstract) → Sound s → Sound (record s { enabled = on })
Sound-settings on s v = record { balanced = v.balanced; no_time = v.no_time; idle = v.idle }

control-Sound : (r : Received) (s : Abstract) → Sound s → Sound (spec_write_control r s)
control-Sound (rejected e) s v = v
control-Sound (command cmd) s v = elim (Bool-cases (str_eq cmd (codes "start"))) [
  | inl a ↦ rw a (Sound-settings 1 s v)
  | inr a ↦ elim (Bool-cases (str_eq cmd (codes "stop"))) [
    | inl b ↦ rw (a, b) (Sound-settings 0 s v)
    | inr b ↦ elim (Bool-cases (str_eq cmd (codes "clear"))) [
      | inl c ↦ rw (a, b, c) (record { balanced = v.balanced; no_time = v.no_time; idle = tt })
      | inr c ↦ elim (Bool-cases (str_eq cmd (codes "reset_stats"))) [
        | inl d ↦ rw (a, b, c, d) (record { balanced = omega arith; no_time = refl; idle = v.idle })
        | inr d ↦ rw (a, b, c, d) v
      ]
    ]
  ]
]

filter-Sound :
    (k : Kernel) (r : Received) (s : Abstract) → Sound s → Sound (spec_write_filter k r s)
filter-Sound k (rejected e) s v = v
filter-Sound k (command cmd) s v = record {
  balanced = v.balanced;
  no_time = v.no_time;
  idle = v.idle;
}

step-Sound : (k : Kernel) (e : Event) (s : Abstract) → Sound s → Sound (spec_step k e s)
step-Sound k (fork now alloc task) s v = fork-Sound k now alloc task s v
step-Sound k (exit now task) s v = mark-Sound k now task s v
step-Sound k (write_filter count copied) s v = filter-Sound k (spec_received 128 count copied) s v
step-Sound k (write_control count copied) s v = control-Sound (spec_received 64 count copied) s v

run-Sound : (k : Kernel) (es : List Event) → Sound (spec_run k es)
run-Sound k [] = record { balanced = omega arith; no_time = refl; idle = tt }
run-Sound k (e ∷ es) = step-Sound k e (spec_run k es) (run-Sound k es)

module _ {k : Kernel} (rb : IsRbLib k) {es : List Event} {m : Monitor} (r : Reach k es m) where
  -- In every state that a history of allowed events reaches, the number of current processes is
  -- that of the creations less that of the exits, modulo 2 ^ 64.
  pub Reach-IsBalanced : IsBalanced m.stats
  Reach-IsBalanced = rw (ap (λ s. s.stats) (Reach-refines rb r).1) ((run-Sound k es).balanced)

  -- In every state that a history of allowed events reaches, the total processor time is 0, as is
  -- that of each record: nothing ever measures it.
  pub Reach-no_cpu_time : (m.stats.total_cpu_time ≡ 0) × All IsIdle (abstract_of m).rows
  Reach-no_cpu_time =
      let e : abstract_of m ≡ spec_run k es = (Reach-refines rb r).1 in
      (
        ap (λ s. s.stats.total_cpu_time) e ∙ (run-Sound k es).no_time,
        subst (λ s. All IsIdle s.rows) (sym e) ((run-Sound k es).idle),
      )
