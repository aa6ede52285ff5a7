-- ===== src/ProcInterface/State.antt =====
-- The data of experiments/03_proc_interface.c. An array is the list of its bytes.
use model_lib.Prelude.{ℕ, zero, suc, List, [], ◌∷◌, ◌++◌, Option, none, some, ◌>>=◌, take}
use model_lib.Prelude.Text.{codes}

pub record ProcData : Type 0 where
  pub info_buffer : List ℕ
  pub counter : ℕ
  pub last_access : ℕ
  pub user_message : List ℕ

abbrev pub zeros : ℕ → List ℕ
zeros zero = []
zeros (suc n) = 0 ∷ zeros n

-- A `char` array of size `n` with a string as its initialiser.
abbrev pub filled : ℕ → List ℕ → List ℕ
filled n s = take n (s ++ zeros n)

abbrev pub initial : ProcData
initial = record {
  info_buffer = filled 1024 (codes "Proc filesystem demo initialized\n");
  counter = 0;
  last_access = 0;
  user_message = filled 256 (codes "Hello from kernel!\n");
}

-- What `copy_from_user` does to the buffer: all bytes come, or it fails after some of them.
pub data UserCopy : Type 0 where
  whole : List ℕ → UserCopy
  fault : List ℕ → UserCopy

-- The buffer with its first bytes written over; a byte outside the array gives `none`.
abbrev pub overwrite : List ℕ → List ℕ → Option (List ℕ)
overwrite [] buf = some buf
overwrite (b ∷ bs) [] = none
overwrite (b ∷ bs) (x ∷ buf) = overwrite bs buf >>= λ rest. some (b ∷ rest)

-- `buf[i] = v`
abbrev pub store : List ℕ → ℕ → ℕ → Option (List ℕ)
store [] i v = none
store (x ∷ buf) zero v = some (v ∷ buf)
store (x ∷ buf) (suc i) v = store buf i v >>= λ rest. some (x ∷ rest)
