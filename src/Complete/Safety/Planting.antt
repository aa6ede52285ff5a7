-- ===== src/Complete/Safety/Planting.antt =====
-- `link_node` puts a record behind those that started no later: insertion into a sorted list.
use model_lib.Prelude.{
  ℕ, ◌≤◌, ◌≡◌, refl, inl, inr, true, false, ◌||◌, List, [], ◌∷◌, ◌++◌, some, arith, ◌==◌, ltb,
  if◌then◌else◌, elem, IsDistinct, Bool-cases, Option-cases, elem-append, ==_refl,
}
use model_lib.Kernel.{Tree, leaf, node, in_order}
use model_lib.Complete.State.{ProcessRecord, Heap}
use model_lib.Complete.Index.{link_node}
use model_lib.Complete.Invariant.{is_live, start_at, IsSorted}

module _ (h : Heap) (n a : ℕ) where
  abbrev pub place : List ℕ → List ℕ
  place [] = a ∷ []
  place (x ∷ xs) = if ltb n (start_at h x) then a ∷ x ∷ xs else x ∷ place xs

  pub elem-place : (b : ℕ) (xs : List ℕ) → elem b (place xs) ≡ ((a == b) || elem b xs)
  elem-place b [] = refl
  elem-place b (x ∷ xs) = ground (arith, elem-place b xs)

  pub IsDistinct-place : (xs : List ℕ) → IsDistinct xs → elem a xs ≡ false → IsDistinct (place xs)
  IsDistinct-place [] d e = (refl, tt)
  IsDistinct-place (x ∷ xs) d e = ground (arith, IsDistinct-place xs d.1, elem-place x xs)

  pub IsSorted-place :
      (m : ℕ) (xs : List ℕ) → start_at h a ≡ n → m ≤ n → IsSorted h m xs → IsSorted h m (place xs)
  IsSorted-place m [] q le s = (omega arith, tt)
  IsSorted-place m (x ∷ xs) q le s = elim (Bool-cases (ltb n (start_at h x))) [
    | inl c ↦ rw c (omega arith, (ground arith, s.1))
    | inr c ↦ rw c (s.0, IsSorted-place (start_at h x) xs q (ground arith) s.1)
  ]

  place-left :
      (b : ℕ) (l r : List ℕ) → ltb n (start_at h b) ≡ true → place (l ++ b ∷ r) ≡ place l ++ b ∷ r
  place-left b [] r c = rw c
  place-left b (x ∷ l) r c = ground (arith, place-left b l r c)

  IsSorted-bound : (m b : ℕ) (l r : List ℕ) → IsSorted h m (l ++ b ∷ r) → m ≤ start_at h b
  IsSorted-bound m b [] r s = s.0
  IsSorted-bound m b (x ∷ l) r s = omega (arith, s.0, IsSorted-bound (start_at h x) b l r s.1)

  place-right :
      (m b : ℕ) (l r : List ℕ)
      → ltb n (start_at h b) ≡ false
      → IsSorted h m (l ++ b ∷ r)
      → place (l ++ b ∷ r) ≡ l ++ b ∷ place r
  place-right m b [] r c s = rw c
  place-right m b (x ∷ l) r c s =
      ground
        (arith, place-right (start_at h x) b l r c s.1, IsSorted-bound (start_at h x) b l r s.1)

  IsSorted-left : (m : ℕ) (l r : List ℕ) → IsSorted h m (l ++ r) → IsSorted h m l
  IsSorted-left m [] r s = tt
  IsSorted-left m (x ∷ l) r s = (s.0, IsSorted-left (start_at h x) l r s.1)

  IsSorted-right :
      (m b : ℕ) (l r : List ℕ) → IsSorted h m (l ++ b ∷ r) → IsSorted h (start_at h b) r
  IsSorted-right m b [] r s = s.1
  IsSorted-right m b (x ∷ l) r s = IsSorted-right (start_at h x) b l r s.1

  abbrev pub AllLive : List ℕ → Type 0
  AllLive xs = (x : ℕ) → elem x xs ≡ true → is_live h x ≡ true

  -- What the descent does on a tree.
  abbrev pub Plants : Tree → Type 0
  Plants t = (t' : Tree) × (link_node h a n t ≡ some t') × (in_order t' ≡ place (in_order t))

  Plants-node :
      (m : ℕ) (l : Tree) (b : ℕ) (r : Tree) (this : ProcessRecord)
      → IsSorted h m (in_order (node l b r))
      → h b ≡ some this
      → Plants l
      → Plants r
      → Plants (node l b r)
  unfolding link_node
  Plants-node m l b r this s e (l', ql, wl) (r', qr, wr) =
      elim (Bool-cases (ltb n this.start_time)) [
        | inl c ↦
            (node l' b r, ground arith, ground (arith, place-left b (in_order l) (in_order r)))
        | inr c ↦
            (node l b r', ground arith, ground (arith, place-right m b (in_order l) (in_order r)))
      ]

  -- On a sorted tree of live records the descent makes no bad access, and the new node stands
  -- where insertion into the sorted list puts it.
  pub link_node-place :
      (m : ℕ) (t : Tree) → AllLive (in_order t) → IsSorted h m (in_order t) → Plants t
  unfolding link_node
  link_node-place m leaf v s = (node leaf a leaf, refl, refl)
  link_node-place m (node l b r) v s = elim (Option-cases (h b)) [
    | inl e ↦ absurd (ground (arith, v b (rw elem-append (ground (arith, ==_refl b)))))
    | inr (this, e) ↦
        Plants-node m l b r this s e
          (link_node-place m l (λ x q. v x (rw elem-append (ground arith)))
            (IsSorted-left m (in_order l) (b ∷ in_order r) s))
          (link_node-place (start_at h b) r (λ x q. v x (rw elem-append (ground arith)))
            (IsSorted-right m b (in_order l) (in_order r) s))
  ]
