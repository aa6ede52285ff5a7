-- ===== src/Command.antt =====
-- How a write handler of experiments/ reads its command, up to the first comparison.
pub mod Receive
use model_lib.Prelude.{
  ℕ, zero, suc, List, [], ◌∷◌, ◌++◌, Option, none, some, ◌==◌, leb, if◌then◌else◌, ◌>>=◌, get_elem?,
  set,
}
use model_lib.Prelude.Text.{c_str}
use model_lib.Kernel.{Errno, einval, efault, Arg, num, str, txt}

-- `if (cmd[count-1] == '\n') cmd[count-1] = '\0';` For an empty write the index is -1, outside
-- the array.
unfoldable pub chomp : ℕ → List ℕ → Option (List ℕ)
chomp zero cmd = none
chomp (suc last) cmd = get_elem? cmd last >>= λ b. some (if b == 10 then set cmd last 0 else cmd)

pub data Received : Type 0 where
  command : List ℕ → Received
  rejected : Errno → Received

-- `size` is `sizeof(cmd)`; `copied` is what `copy_from_user` brings, `none` if it fails.
unfoldable pub receive : ℕ → ℕ → Option (List ℕ) → Option Received
unfolding chomp
receive size count none = some (rejected (if leb size count then einval else efault))
receive size count (some bytes) =
    if leb size count
    then some (rejected einval)
    else chomp count (bytes ++ 0 ∷ []) >>= λ cmd. some (command (c_str cmd))

-- `sscanf(…, "%31s %63s", op, value) == 2`
abbrev pub two_words : List Arg → Option (List ℕ × List ℕ)
two_words (str op ∷ str value ∷ []) = some (op, value)
two_words _ = none

-- `sscanf(…, "%15s %d", op, &value) == 2`
abbrev pub word_number : List Arg → Option (List ℕ × ℕ)
word_number (str op ∷ num value ∷ []) = some (op, value)
word_number _ = none

-- `sscanf(…, "%d", &value) == 1`
abbrev pub one_number : List Arg → Option ℕ
one_number (num value ∷ []) = some value
one_number _ = none
