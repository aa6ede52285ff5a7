-- ===== src/KernelList/State.antt =====
-- The data of experiments/02_kernel_list.c.
use model_lib.Prelude.{ℕ, List, []}

abbrev pub max_records : ℕ
max_records = 20

pub record DemoRecord : Type 0 where
  pub id : ℕ
  pub name : List ℕ
  pub timestamp : ℕ

pub record ListDemo : Type 0 where
  pub record_list : List DemoRecord
  pub record_count : ℕ
  pub next_id : ℕ

abbrev pub initial : ListDemo
initial = record { record_list = []; record_count = 0; next_id = 1 }
