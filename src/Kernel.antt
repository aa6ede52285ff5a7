-- ===== src/Kernel.antt =====
-- What the modules take from the kernel: its functions are parameters, its messages are values.
use model_lib.Prelude.{ℕ, List, [], ◌∷◌, ◌++◌, String}

-- An argument of a conversion such as `%d` (a bit pattern) or `%s`.
pub data Arg : Type 0 where
  num : ℕ → Arg
  str : List ℕ → Arg
  txt : String → Arg

-- One call of `seq_printf` or `printk`.
pub record Line : Type 0 where
  pub format : String
  pub args : List Arg

abbrev pub line : String → List Arg → Line
line f xs = record { format = f; args = xs }

abbrev pub say : String → Line
say f = line f []

-- The error codes that the handlers return, negated.
pub data Errno : Type 0 where
  einval efault enomem : Errno

-- What a write handler returns.
pub data Reply : Type 0 where
  written : ℕ → Reply
  refused : Errno → Reply

-- The fields of `current` that the probes read; `code` is `exit_code`.
pub record Task : Type 0 where
  pub pid : ℕ
  pub parent_pid : ℕ
  pub comm : List ℕ
  pub code : ℕ

-- A binary tree of nodes at addresses. Colours are the business of <linux/rbtree.h>.
pub data Tree : Type 0 where
  leaf : Tree
  node : Tree → ℕ → Tree → Tree

abbrev pub in_order : Tree → List ℕ
in_order leaf = []
in_order (node l a r) = in_order l ++ a ∷ in_order r

-- The functions and constants of the kernel that the sources call and do not define.
-- `sscanf` gives the conversions that succeed, in order.
pub record Kernel : Type 0 where
  pub hz : ℕ
  pub task_comm_len : ℕ
  pub hash_min : ℕ → ℕ
  pub rb_insert_color : ℕ → Tree → Tree
  pub rb_erase : ℕ → Tree → Tree
  pub sscanf : String → List ℕ → List Arg
  pub simple_strtol : List ℕ → ℕ
