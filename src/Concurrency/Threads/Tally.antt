-- ===== src/Concurrency/Threads/Tally.antt =====
-- How many of the first `n` threads stand where a weight says so.
use model_lib.Prelude.{
  ℕ, zero, suc, ◌+◌, ◌≤◌, ◌<◌, ◌≡◌, ◌≢◌, refl, inl, inr, arith, ◌==◌, Bool-cases,
}
use model_lib.Concurrency.Threads.Moves.{Pc}
use model_lib.Concurrency.Threads.System.{moved}

module _ (w : Pc → ℕ) where
  unfoldable pub tally : ℕ → (ℕ → Pc) → ℕ
  tally zero pc = 0
  tally (suc n) pc = w (pc n) + tally n pc

  tally_beyond :
      (n : ℕ) (pc : ℕ → Pc) (i : ℕ) (p : Pc) → n ≤ i → tally n (moved pc i p) ≡ tally n pc
  unfolding tally
  tally_beyond zero pc i p h = refl
  tally_beyond (suc n) pc i p h = ground (arith, tally_beyond n pc i p)

  -- A move of thread `i` changes the tally by what it changes at `i`.
  pub tally-moved :
      (n : ℕ) (pc : ℕ → Pc) (i : ℕ) (p : Pc)
      → i < n
      → tally n (moved pc i p) + w (pc i) ≡ tally n pc + w p
  unfolding tally
  tally-moved zero pc i p h = absurd (omega arith)
  tally-moved (suc n) pc i p h = elim (Bool-cases (n == i)) [
    | inl e ↦ ground (arith, tally_beyond n pc i p)
    | inr e ↦ ground (arith, tally-moved n pc i p)
  ]

  pub tally-zero : (n : ℕ) (pc : ℕ → Pc) → ((i : ℕ) → w (pc i) ≡ 0) → tally n pc ≡ 0
  unfolding tally
  tally-zero zero pc h = refl
  tally-zero (suc n) pc h = omega (arith, h n, tally-zero n pc h)

  pub tally-le : (n : ℕ) (pc : ℕ → Pc) (i : ℕ) → i < n → w (pc i) ≤ tally n pc
  unfolding tally
  tally-le zero pc i h = absurd (omega arith)
  tally-le (suc n) pc i h = elim (Bool-cases (n == i)) [
    | inl e ↦ ground arith
    | inr e ↦ ground (arith, tally-le n pc i)
  ]

  -- Two different threads both count.
  pub tally-pair :
      (n : ℕ) (pc : ℕ → Pc) (i j : ℕ) → i < n → j < n → i ≢ j → w (pc i) + w (pc j) ≤ tally n pc
  unfolding tally
  tally-pair zero pc i j h k d = absurd (omega arith)
  tally-pair (suc n) pc i j h k d = elim (Bool-cases (n == i)) [
    | inl e ↦ ground (arith, tally-le n pc j)
    | inr e ↦ elim (Bool-cases (n == j)) [
      | inl f ↦ ground (arith, tally-le n pc i)
      | inr f ↦ ground (arith, tally-pair n pc i j)
    ]
  ]

  -- If the tally is not zero, some thread counts.
  pub tally-some : (n : ℕ) (pc : ℕ → Pc) → 0 < tally n pc → (i : ℕ) × (i < n) × (0 < w (pc i))
  unfolding tally
  tally-some zero pc h = absurd (omega (arith, h))
  tally-some (suc n) pc h = elim (Bool-cases (w (pc n) == 0)) [
    | inl e ↦ let (i, lt, c) = tally-some n pc (ground (arith, h)) in (i, omega (arith, lt), c)
    | inr e ↦ (n, omega arith, ground arith)
  ]
