-- ===== src/Complete/Refinement.antt =====
-- The monitor implements the abstract machine, on every event and in every reachable state.
use model_lib.Prelude.{
  ℕ, ◌<◌, ◌≡◌, refl, sym, ap, ◌∙◌, inl, inr, List, [], ◌∷◌, Option, none, some, arith, ◌==◌, ◌>>=◌,
  Bool-cases,
}
use model_lib.Prelude.Text.{codes, str_eq}
use model_lib.Kernel.{Kernel, Task, Line, written}
use model_lib.Command.{Received, command, rejected}
use model_lib.Command.Receive.{IsCopied, spec_received, receive-received}
use model_lib.Complete.State.{MonitorStats, FilterConfig, Monitor, zero_stats, initial}
use model_lib.Complete.Events.{pre_handler_fork, pre_handler_exit}
use model_lib.Complete.Control.{
  filter_command, filter_received, filter_write, clear_records, control_command, control_received,
  control_write,
}
use model_lib.Complete.Invariant.{IsRbLib, IsStored, IsValid}
use model_lib.Complete.View.{records}
use model_lib.Complete.Safety.Add.{add_process_record_refines}
use model_lib.Complete.Safety.Exit.{mark_process_exit_refines}
use model_lib.Complete.Safety.Clear.{clear_records-Emptied}
use model_lib.Complete.Spec.{
  Abstract, abstract_of, Event, fork, exit, write_filter, write_control, run_event, IsFresh,
  IsAllowed, spec_fork, spec_mark, spec_control, spec_write_filter, spec_write_control, spec_step,
}

-- A change of the filter, the switch or the statistics leaves the records alone.
IsValid-settings :
    {k : Kernel} {m : Monitor} (s : MonitorStats) (f : FilterConfig) (on : ℕ)
    → IsValid k m
    → IsValid k (record m { stats = s; filter = f; monitoring_enabled = on })
IsValid-settings s f on v = record {
  counted = v.counted;
  bounded = v.bounded;
  stored = record {
    distinct = v.stored.distinct;
    live = v.stored.live;
    apart = v.stored.apart;
    hashed = v.stored.hashed;
    planted = v.stored.planted;
    planted_once = v.stored.planted_once;
    sorted = v.stored.sorted;
  };
}

-- The outcome is a valid state that stands for `s`.
abbrev pub Refines : Kernel → Option Monitor → Abstract → Type 0
Refines k o s = (m' : Monitor) × (o ≡ some m') × IsValid k m' × (abstract_of m' ≡ s)

abstract_eq :
    (s t : Abstract)
    → s.rows ≡ t.rows
    → s.stats ≡ t.stats
    → s.filter ≡ t.filter
    → s.enabled ≡ t.enabled
    → s ≡ t
abstract_eq s t p q r e = λ i. record { rows = p i; stats = q i; filter = r i; enabled = e i }

drop_reply :
    (count : ℕ) (o : Option (Monitor × List Line))
    → ((o >>= λ (m', out). some (m', out, written count)) >>= λ (m', out, reply). some m')
      ≡ (o >>= λ (m', out). some m')
drop_reply count none = refl
drop_reply count (some (m, out)) = refl

module _ {k : Kernel} (rb : IsRbLib k) {m : Monitor} (v : IsValid k m) where
  fork-Refines :
      (now : ℕ) (alloc : Option ℕ) (task : Task)
      → IsFresh m alloc
      → Refines k (run_event k (fork now alloc task) m) (spec_fork k now alloc task (abstract_of m))
  unfolding pre_handler_fork
  fork-Refines now none task h = (m, refl, v, refl)
  fork-Refines now (some a) task h = elim (Bool-cases (m.monitoring_enabled == 0)) [
    | inl off ↦ (m, rw off, v, rw off)
    | inr on ↦
        let (m', e, w) =
          add_process_record_refines rb v a h now task.pid task.parent_pid task.comm on in
        (
          m',
          ap (λ o. o >>= λ (m'', out). some m'') e,
          w.valid,
          rw on (abstract_eq _ _ w.seen w.counted w.same_filter w.same_enabled),
        )
  ]

  exit-Refines :
      (now : ℕ) (task : Task)
      → Refines k (run_event k (exit now task) m) (spec_mark k now task (abstract_of m))
  unfolding pre_handler_exit
  exit-Refines now task = elim (Bool-cases (m.monitoring_enabled == 0)) [
    | inl off ↦ (m, rw off, v, rw off)
    | inr on ↦
        let (m', e, w) = mark_process_exit_refines v now task.pid task.code on in
        (
          m',
          ap (λ o. o >>= λ (m'', out). some m'') e,
          w.valid,
          rw on (abstract_eq _ _ w.seen w.counted w.same_filter w.same_enabled),
        )
  ]

  received-filter :
      (count : ℕ) (r : Received)
      → Refines k (some (filter_received k count m r).0) (spec_write_filter k r (abstract_of m))
  unfolding filter_received
  received-filter count (rejected e) = (m, refl, v, refl)
  received-filter count (command cmd) = (
    _,
    refl,
    IsValid-settings m.stats (filter_command k cmd m.filter) m.monitoring_enabled v,
    refl,
  )

  filter-Refines :
      (count : ℕ) (copied : Option (List ℕ))
      → IsCopied count copied
      → 0 < count
      → Refines k
          (run_event k (write_filter count copied) m)
          (spec_write_filter k (spec_received 128 count copied) (abstract_of m))
  unfolding filter_write
  filter-Refines count copied c h =
      rw (receive-received 128 count copied c h)
        (received-filter count (spec_received 128 count copied))

  cleared : Refines k (clear_records k m) (record (abstract_of m) { rows = [] })
  cleared =
      let (m', e, w, u) = clear_records-Emptied rb v in
      (
        m',
        e,
        u,
        abstract_eq _ _ (ap (records m'.heap) w.empty) w.same_stats w.same_filter w.same_enabled,
      )

  command-control :
      (cmd : List ℕ)
      → Refines k
          (control_command k cmd m >>= λ (m', out). some m')
          (spec_control cmd (abstract_of m))
  unfolding control_command
  command-control cmd = elim (Bool-cases (str_eq cmd (codes "start"))) [
    | inl a ↦ rw a (_, refl, IsValid-settings m.stats m.filter 1 v, refl)
    | inr a ↦ elim (Bool-cases (str_eq cmd (codes "stop"))) [
      | inl b ↦ rw (a, b) (_, refl, IsValid-settings m.stats m.filter 0 v, refl)
      | inr b ↦ elim (Bool-cases (str_eq cmd (codes "clear"))) [
        | inl c ↦ rw (a, b, c) (cleared.0, rw cleared.1, cleared.2, cleared.3)
        | inr c ↦ elim (Bool-cases (str_eq cmd (codes "reset_stats"))) [
          | inl d ↦
              rw (a, b, c, d)
                (_, refl, IsValid-settings zero_stats m.filter m.monitoring_enabled v, refl)
          | inr d ↦ rw (a, b, c, d) (m, refl, v, refl)
        ]
      ]
    ]
  ]

  received-control :
      (count : ℕ) (r : Received)
      → Refines k
          (control_received k count m r >>= λ (m', out, reply). some m')
          (spec_write_control r (abstract_of m))
  unfolding control_received
  received-control count (rejected e) = (m, refl, v, refl)
  received-control count (command cmd) =
      let (m', e, w, q) = command-control cmd in
      (m', drop_reply count (control_command k cmd m) ∙ e, w, q)

  control-Refines :
      (count : ℕ) (copied : Option (List ℕ))
      → IsCopied count copied
      → 0 < count
      → Refines k
          (run_event k (write_control count copied) m)
          (spec_write_control (spec_received 64 count copied) (abstract_of m))
  unfolding control_write
  control-Refines count copied c h =
      rw (receive-received 64 count copied c h)
        (received-control count (spec_received 64 count copied))

  -- Every event that the kernel may bring makes no bad access on a valid monitor; the monitor
  -- stays valid, and its records, statistics, filter and switch become what the abstract machine
  -- says.
  pub step-Refines :
      (e : Event) → IsAllowed m e → Refines k (run_event k e m) (spec_step k e (abstract_of m))
  step-Refines (fork now alloc task) h = fork-Refines now alloc task h
  step-Refines (exit now task) h = exit-Refines now task
  step-Refines (write_filter count copied) h = filter-Refines count copied h.0 h.1
  step-Refines (write_control count copied) h = control-Refines count copied h.0 h.1

initial-IsStored : (k : Kernel) → IsStored k [] initial
initial-IsStored k = record {
  distinct = tt;
  live = λ a. refl;
  apart = λ a e. refl;
  hashed = λ b. refl;
  planted = λ a. refl;
  planted_once = tt;
  sorted = tt;
}

pub initial-IsValid : (k : Kernel) → IsValid k initial
initial-IsValid k = record { counted = refl; bounded = omega arith; stored = initial-IsStored k }

-- The states that a loaded module can reach, with the events that led there, the last one first.
pub data Reach (k : Kernel) : List Event → Monitor → Type 0 where
  loaded : Reach k [] initial
  after :
      {es : List Event} {m m' : Monitor} (e : Event)
      → Reach k es m
      → IsAllowed m e
      → run_event k e m ≡ some m'
      → Reach k (e ∷ es) m'

-- The abstract machine on a history, the last event first.
abbrev pub spec_run : Kernel → List Event → Abstract
spec_run k [] = abstract_of initial
spec_run k (e ∷ es) = spec_step k e (spec_run k es)

-- After any history of allowed events the monitor is valid, and its records, statistics, filter
-- and switch are those of the abstract machine after the same history.
pub Reach-refines :
    {k : Kernel}
    → IsRbLib k
    → {es : List Event} {m : Monitor} → Reach k es m
    → IsValid k m × (abstract_of m ≡ spec_run k es)
Reach-refines {k} rb loaded = (initial-IsValid k, refl)
Reach-refines {k} rb (after {es} {m} {m'} e r h q) =
    let (v, w) = Reach-refines rb r in
    let (n, p, u, z) = step-Refines rb v e h in
    let same : n ≡ m' = cc (p, q) in
    (rw (sym same) u, ap abstract_of (sym same) ∙ z ∙ ap (spec_step k e) w)
