-- ===== src/ProcInterface/History.antt =====
-- Histories of reads and writes in /proc/proc_demo.
use model_lib.Prelude.{
  ℕ, inl, inr, ◌<◌, ◌≡◌, refl, List, [], ◌∷◌, Option, none, some, ◌>>=◌, All, Bool-cases,
}
use model_lib.Prelude.Text.{codes, str_eq}
use model_lib.Kernel.{Kernel}
use model_lib.Command.{Received, command, rejected, one_number}
use model_lib.Command.Receive.{IsCopied, spec_received, receive-received}
use model_lib.ProcInterface.State.{ProcData, initial, UserCopy}
use model_lib.ProcInterface.Files.{
  counter_show, set_counter, counter_received, counter_write, message_write,
}
use model_lib.ProcInterface.Message.{IsTerminated, IsUserCopy, message_write-Kept}

-- The operations that change the data.
pub data Event : Type 0 where
  show_counter : (now : ℕ) → Event
  write_counter : (now count : ℕ) → Option (List ℕ) → Event
  write_message : (count : ℕ) → UserCopy → Event

abbrev pub run_event : Kernel → Event → ProcData → Option ProcData
run_event k (show_counter now) d = some (counter_show now d).0
run_event k (write_counter now count copied) d =
    counter_write k now count copied d >>= λ (d', out, reply). some d'
run_event k (write_message count copied) d =
    message_write count copied d >>= λ (d', out, reply). some d'

abbrev pub run_events : Kernel → List Event → ProcData → Option ProcData
run_events k [] d = some d
run_events k (e ∷ es) d = run_event k e d >>= λ d'. run_events k es d'

-- What the kernel may copy. A write to the counter is not empty, for it would access `cmd[-1]`.
abbrev pub IsAllowed : Event → Type 0
IsAllowed (show_counter now) = Unit
IsAllowed (write_counter now count copied) = IsCopied count copied × (0 < count)
IsAllowed (write_message count copied) = IsUserCopy count copied

set_counter-keeps :
    (now count : ℕ) (cmd : List ℕ) (new_value : Option ℕ) (d : ProcData)
    → (set_counter now count cmd new_value d).0.user_message ≡ d.user_message
unfolding set_counter
set_counter-keeps now count cmd none d = refl
set_counter-keeps now count cmd (some v) d = refl

counter_received-keeps :
    (k : Kernel) (now count : ℕ) (d : ProcData) (r : Received)
    → (counter_received k now count d r).0.user_message ≡ d.user_message
unfolding counter_received
counter_received-keeps k now count d (rejected e) = refl
counter_received-keeps k now count d (command cmd) =
    elim (Bool-cases (str_eq cmd (codes "reset"))) [
      | inl e ↦ rw e refl
      | inr e ↦ rw e (set_counter-keeps now count cmd (one_number (k.sscanf "%d" cmd)) d)
    ]

run_event-IsTerminated :
    (k : Kernel) (e : Event) (d : ProcData)
    → IsAllowed e
    → IsTerminated d.user_message
    → (d' : ProcData) × (run_event k e d ≡ some d') × IsTerminated d'.user_message
unfolding counter_show counter_write
run_event-IsTerminated k (show_counter now) d h t = (_, refl, t)
run_event-IsTerminated k (write_counter now count copied) d h t = (
  (counter_received k now count d (spec_received 32 count copied)).0,
  rw (receive-received 32 count copied h.0 h.1) refl,
  rw (counter_received-keeps k now count d (spec_received 32 count copied)) t,
)
run_event-IsTerminated k (write_message count copied) d h t =
    let (d', out, reply, e, u) = message_write-Kept count copied d h t in (d', rw e refl, u)

run_events-IsTerminated_from :
    (k : Kernel) (es : List Event) (d : ProcData)
    → All IsAllowed es
    → IsTerminated d.user_message
    → (d' : ProcData) × (run_events k es d ≡ some d') × IsTerminated d'.user_message
run_events-IsTerminated_from k [] d h t = (d, refl, t)
run_events-IsTerminated_from k (e ∷ es) d h t =
    let (d', p, u) = run_event-IsTerminated k e d h.0 t in
    let (d'', q, w) = run_events-IsTerminated_from k es d' h.1 u in (d'', rw p q, w)

-- After any history of reads, of writes to the counter that are not empty and of writes to the
-- message, failed copies included, no access was out of bounds and the message still ends inside
-- its array, so that every read of it stays inside.
pub run_events-IsTerminated :
    (k : Kernel) (es : List Event)
    → All IsAllowed es
    → (d : ProcData) × (run_events k es initial ≡ some d) × IsTerminated d.user_message
run_events-IsTerminated k es h = run_events-IsTerminated_from k es initial h (refl, refl)
