-- ===== src/Complete/Safety/Lemmas.antt =====
-- Lists of addresses under a change of the heap elsewhere.
use model_lib.Prelude.{
  ℕ, ◌≤◌, ◌≡◌, refl, sym, ◌∙◌, inl, inr, Bool, true, false, List, [], ◌∷◌, Option, arith, ◌==◌,
  keep, elem, Bool-cases, ==_refl, ==_iff,
}
use model_lib.Complete.State.{ProcessRecord, Heap, update}
use model_lib.Complete.Invariant.{start_at, IsSorted}

pub update_self : (h : Heap) (a : ℕ) (o : Option ProcessRecord) → update h a o a ≡ o
update_self h a o = ground (arith, ==_refl a)

pub update_absent :
    (h : Heap) (a b : ℕ) (o : Option ProcessRecord) (xs : List ℕ)
    → elem a xs ≡ false
    → elem b xs ≡ true
    → update h a o b ≡ h b
update_absent h a b o xs n e = elim (Bool-cases (b == a)) [
  | inl q ↦ absurd (false≠true (sym n ∙ rw (sym ((==_iff b a).0 q)) e))
  | inr q ↦ rw q refl
]
  where
    false≠true : false ≡ true → ⊥
    false≠true q = cc

-- A test that gives the same on the elements of a list keeps the same of them.
pub keep_congr :
    (p q : ℕ → Bool) (xs : List ℕ)
    → ((a : ℕ) → elem a xs ≡ true → p a ≡ q a)
    → keep p xs ≡ keep q xs
keep_congr p q [] h = refl
keep_congr p q (x ∷ xs) h =
    ground (arith, h x (ground (arith, ==_refl x)), keep_congr p q xs (λ a e. h a (ground arith)))

-- A record stored at an address outside a list leaves the list sorted.
pub IsSorted-congr :
    (h h' : Heap) (n : ℕ) (xs : List ℕ)
    → ((a : ℕ) → elem a xs ≡ true → start_at h' a ≡ start_at h a)
    → IsSorted h n xs
    → IsSorted h' n xs
IsSorted-congr h h' n [] e s = tt
IsSorted-congr h h' n (x ∷ xs) e s = (
  rw (e x (ground (arith, ==_refl x))) s.0,
  rw (e x (ground (arith, ==_refl x)))
      (IsSorted-congr h h' (start_at h x) xs (λ a q. e a (ground arith)) s.1),
)

pub IsSorted-mono : (h : Heap) (m n : ℕ) (xs : List ℕ) → m ≤ n → IsSorted h n xs → IsSorted h m xs
IsSorted-mono h m n [] le s = tt
IsSorted-mono h m n (x ∷ xs) le s = (omega arith, s.1)

pub IsSorted-keep :
    (h : Heap) (p : ℕ → Bool) (n : ℕ) (xs : List ℕ) → IsSorted h n xs → IsSorted h n (keep p xs)
IsSorted-keep h p n [] s = tt
IsSorted-keep h p n (x ∷ xs) s = elim (Bool-cases (p x)) [
  | inl q ↦ rw q (s.0, IsSorted-keep h p (start_at h x) xs s.1)
  | inr q ↦
      rw q
        (IsSorted-mono h n (start_at h x) (keep p xs) s.0 (IsSorted-keep h p (start_at h x) xs s.1))
]
