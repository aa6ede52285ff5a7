-- ===== src/Complete/Filtering.antt =====
-- What the filter of experiments/05_complete_monitor.c lets through.
use model_lib.Prelude.{
  ℕ, zero, suc, ◌-◌, ◌^◌, ◌≤◌, ◌<◌, ◌≡◌, ◌≢◌, refl, ap, ap₂, ◌∙◌, true, false, List, [], ◌∷◌, some,
  arith, ◌==◌, if◌then◌else◌, take,
}
use model_lib.Prelude.Text.{codes, str_eq, strn_eq, copy_str}
use model_lib.Kernel.{Kernel}
use model_lib.Command.{two_words}
use model_lib.Complete.State.{ProcessRecord, FilterConfig, zero_filter}
use model_lib.Complete.Matches.{lifetime_of, lifetime_matches, record_matches}
use model_lib.Complete.Events.{new_record}
use model_lib.Complete.Control.{filter_command}

take-take : (n : ℕ) (s : List ℕ) → take (suc n) (take n s) ≡ take n s
take-take zero s = refl
take-take (suc n) [] = refl
take-take (suc n) (b ∷ s) = ap (λ t. b ∷ t) (take-take n s)

-- A filter with only a target name.
abbrev named : List ℕ → FilterConfig
named name = record zero_filter { target_comm = name; enabled = 1 }

named_matches :
    (k : Kernel) (b : ℕ) (name : List ℕ) (r : ProcessRecord)
    → r.status ≡ 1
    → record_matches k (named (b ∷ name)) r ≡ strn_eq r.comm (b ∷ name) k.task_comm_len
unfolding record_matches
named_matches k b name r s = ground arith

copy_str-len : (len n : ℕ) (s : List ℕ) → len ≡ suc (suc n) → copy_str len s ≡ take (suc n) s
copy_str-len len n s e = let less : len - 1 ≡ suc n = omega arith in ap (λ l. take l s) less

strn_eq-cut :
    (len n : ℕ) (s t : List ℕ)
    → len ≡ suc (suc n)
    → strn_eq (take (suc n) s) (take (suc n) t) len ≡ str_eq (take (suc n) s) (take (suc n) t)
strn_eq-cut len n s t e =
    ap (strn_eq (take (suc n) s) (take (suc n) t)) e
    ∙ ap₂ str_eq (take-take (suc n) s) (take-take (suc n) t)

filter_command_comm :
    (k : Kernel) (cmd value : List ℕ) (f : FilterConfig)
    → str_eq cmd (codes "enable") ≡ false
    → str_eq cmd (codes "disable") ≡ false
    → str_eq cmd (codes "reset") ≡ false
    → two_words (k.sscanf "%31s %63s" cmd) ≡ some (codes "comm", value)
    → filter_command k cmd f ≡ record f { target_comm = copy_str k.task_comm_len value }
unfolding filter_command
filter_command_comm k cmd value f e d r w = rw (e, d, r, w)

-- The command "comm <value>" on an enabled filter that is otherwise empty, then a new process: it
-- is let through exactly if its name and the value, both cut to the length of `comm`, are equal.
-- The value is not empty, since `%63s` reads at least one character.
pub comm_filter_exact :
    (k : Kernel) (cmd : List ℕ) (b : ℕ) (value comm : List ℕ) (n now pid ppid : ℕ)
    → k.task_comm_len ≡ suc (suc n)
    → str_eq cmd (codes "enable") ≡ false
    → str_eq cmd (codes "disable") ≡ false
    → str_eq cmd (codes "reset") ≡ false
    → two_words (k.sscanf "%31s %63s" cmd) ≡ some (codes "comm", b ∷ value)
    → record_matches k
        (filter_command k cmd (record zero_filter { enabled = 1 }))
        (new_record k now pid ppid comm)
      ≡ str_eq (take (suc n) comm) (take (suc n) (b ∷ value))
unfolding new_record
comm_filter_exact k cmd b value comm n now pid ppid len e d r w =
    ap (λ f. record_matches k f (new_record k now pid ppid comm))
      (filter_command_comm k cmd (b ∷ value) (named []) e d r w
        ∙ ap named (copy_str-len k.task_comm_len n (b ∷ value) len))
    ∙ named_matches k b (take n value) (new_record k now pid ppid comm) refl
    ∙ ap (λ s. strn_eq s (b ∷ take n value) k.task_comm_len)
        (copy_str-len k.task_comm_len n comm len)
    ∙ strn_eq-cut k.task_comm_len n comm (b ∷ value) len

negative_minimum :
    (f : FilterConfig) (l : ℕ)
    → 2 ^ 31 ≤ f.min_lifetime
    → f.min_lifetime < 2 ^ 32
    → l < 2 ^ 63
    → lifetime_matches f l ≡ false
unfolding lifetime_matches
negative_minimum f l lo hi short = ground arith

-- A negative minimum (an `int` with its sign bit set) is compared as a huge unsigned number: it
-- rejects every exited process whose lifetime is below 2 ^ 63, whatever its other fields are.
pub negative_minimum_rejects :
    (k : Kernel) (f : FilterConfig) (r : ProcessRecord)
    → 2 ^ 31 ≤ f.min_lifetime
    → f.min_lifetime < 2 ^ 32
    → r.status ≡ 0
    → lifetime_of k r < 2 ^ 63
    → record_matches k f r ≡ false
unfolding record_matches
negative_minimum_rejects k f r lo hi exited short =
    ground (arith, negative_minimum f (lifetime_of k r) lo hi short)

-- Without a lifetime bound an enabled filter with only a target pid lets through exactly the
-- records of that pid; with the target 0, every record.
pub pid_filter_exact :
    (k : Kernel) (pid : ℕ) (r : ProcessRecord)
    → record_matches k (record zero_filter { target_pid = pid; enabled = 1 }) r
      ≡ (if pid == 0 then true else r.pid == pid)
unfolding record_matches
pid_filter_exact k pid r = ground arith

-- While a process runs, the lifetime bounds do not matter.
pub running_ignores_bounds :
    (k : Kernel) (f : FilterConfig) (r : ProcessRecord) (lo hi : ℕ)
    → r.status ≢ 0
    → record_matches k (record f { min_lifetime = lo; max_lifetime = hi }) r
      ≡ record_matches k (record f { min_lifetime = 0; max_lifetime = 0 }) r
unfolding record_matches
running_ignores_bounds k f r lo hi s = ground arith
