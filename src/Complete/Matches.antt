-- ===== src/Complete/Matches.antt =====
-- `process_matches_filter`.
use model_lib.Prelude.{
  ℕ, ◌/◌, Bool, true, false, not, ◌&&◌, Option, some, ◌==◌, ltb, if◌then◌else◌, ◌>>=◌, length,
}
use model_lib.Prelude.Words.{sub64, sign_extend}
use model_lib.Prelude.Text.{strn_eq}
use model_lib.Kernel.{Kernel}
use model_lib.Complete.State.{ProcessRecord, FilterConfig, Monitor}

-- `(record->end_time - record->start_time) / HZ`
unfoldable pub lifetime_of : Kernel → ProcessRecord → ℕ
lifetime_of k r = sub64 r.end_time r.start_time / k.hz

-- The tests on the lifetime of a process that has exited; `min_lifetime` and `max_lifetime` are
-- `int`s that the comparison converts to `unsigned long`.
unfoldable pub lifetime_matches : FilterConfig → ℕ → Bool
lifetime_matches f lifetime =
    if not (f.min_lifetime == 0) && ltb lifetime (sign_extend f.min_lifetime)
    then false
    else not (not (f.max_lifetime == 0) && ltb (sign_extend f.max_lifetime) lifetime)

-- The tests of an enabled filter on the record's fields.
unfoldable pub record_matches : Kernel → FilterConfig → ProcessRecord → Bool
unfolding lifetime_matches lifetime_of
record_matches k f r =
    if not (f.target_pid == 0) && not (r.pid == f.target_pid)
    then false
    else if not (f.target_ppid == 0) && not (r.ppid == f.target_ppid)
    then false
    else if not (length f.target_comm == 0) && not (strn_eq r.comm f.target_comm k.task_comm_len)
    then false
    else if r.status == 0
    then lifetime_matches f (lifetime_of k r)
    else true

-- A filter that is not enabled does not read the record.
unfoldable pub process_matches_filter : Kernel → Monitor → ℕ → Option Bool
process_matches_filter k m a =
    if m.filter.enabled == 0
    then some true
    else m.heap a >>= λ r. some (record_matches k m.filter r)
