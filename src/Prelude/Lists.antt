-- ===== src/Prelude/Lists.antt =====
-- Lists measured by native numbers, Boolean filters and membership of addresses.
use Prim.Native.Nat.{ℕ, zero, suc, ◌+◌, ◌≤◌, ◌<◌, min}
use mathlib.Core.Path.{◌≡◌, refl, ap, sym, ◌∙◌}
use mathlib.Core.Logic.{inl, inr}
use mathlib.Core.Bool.{Bool, true, false, not, ◌&&◌, ◌||◌}
use mathlib.Core.List.{List, [], ◌∷◌, ◌++◌, reverse, reverse-cons, append_assoc}
use mathlib.Core.Option.{Option, none, some}
use native.Mathlib.Omega.{arith}
use model_lib.Prelude.Tests.{◌==◌, if◌then◌else◌, Bool-cases, ==_refl, ==_iff}

module _ {ℓ} {A : Type ℓ} where
  abbrev pub length : List A → ℕ
  length [] = 0
  length (x ∷ xs) = suc (length xs)

  abbrev pub take : ℕ → List A → List A
  take zero xs = []
  take (suc n) [] = []
  take (suc n) (x ∷ xs) = x ∷ take n xs

  abbrev pub drop : ℕ → List A → List A
  drop zero xs = xs
  drop (suc n) [] = []
  drop (suc n) (x ∷ xs) = drop n xs

  abbrev pub get_elem? : List A → ℕ → Option A
  get_elem? [] i = none
  get_elem? (x ∷ xs) zero = some x
  get_elem? (x ∷ xs) (suc i) = get_elem? xs i

  -- A write out of bounds changes nothing.
  abbrev pub set : List A → ℕ → A → List A
  set [] i v = []
  set (x ∷ xs) zero v = v ∷ xs
  set (x ∷ xs) (suc i) v = x ∷ set xs i v

  -- The elements that pass a test, in order.
  abbrev pub keep : (A → Bool) → List A → List A
  keep p [] = []
  keep p (x ∷ xs) = if p x then x ∷ keep p xs else keep p xs

  -- The first element that passes a test.
  abbrev pub find_first : (A → Bool) → List A → Option A
  find_first p [] = none
  find_first p (x ∷ xs) = if p x then some x else find_first p xs

  -- The list with its first element that passes the test replaced.
  abbrev pub change_first : (A → Bool) → (A → A) → List A → List A
  change_first p f [] = []
  change_first p f (x ∷ xs) = if p x then f x ∷ xs else x ∷ change_first p f xs

  -- The list with its last element that passes the test replaced.
  abbrev pub change_last : (A → Bool) → (A → A) → List A → List A
  change_last p f xs = reverse (change_first p f (reverse xs))

  pub length-append : (xs ys : List A) → length (xs ++ ys) ≡ length xs + length ys
  length-append [] ys = omega arith
  length-append (x ∷ xs) ys = omega (arith, length-append xs ys)

  pub length-take : (n : ℕ) (xs : List A) → length (take n xs) ≡ min n (length xs)
  length-take zero xs = omega arith
  length-take (suc n) [] = omega arith
  length-take (suc n) (x ∷ xs) = omega (arith, length-take n xs)

  pub length-reverse : (xs : List A) → length (reverse xs) ≡ length xs
  length-reverse [] = refl
  length-reverse (x ∷ xs) =
      ap length (reverse-cons x xs)
      ∙ omega (arith, length-append (reverse xs) (x ∷ []), length-reverse xs)

  pub keep-append : (p : A → Bool) (xs ys : List A) → keep p (xs ++ ys) ≡ keep p xs ++ keep p ys
  keep-append p [] ys = refl
  keep-append p (x ∷ xs) ys = ground (arith, keep-append p xs ys)

  -- Without its first element, the latest `n + 1` of a list are the latest `n`.
  abbrev pub tail : List A → List A
  tail [] = []
  tail (x ∷ xs) = xs

  tail-append : (xs : List A) (y : A) → 0 < length xs → tail (xs ++ y ∷ []) ≡ tail xs ++ y ∷ []
  tail-append [] y h = absurd (omega (arith, h))
  tail-append (x ∷ xs) y h = refl

  pub tail-reverse-take :
      (n : ℕ) (seen : List A)
      → length (take (suc n) seen) ≡ suc n
      → tail (reverse (take (suc n) seen)) ≡ reverse (take n seen)
  tail-reverse-take n [] h = absurd (omega (arith, h))
  tail-reverse-take zero (x ∷ seen) h = refl
  tail-reverse-take (suc n) (x ∷ seen) h =
      ap tail (reverse-cons x (take (suc n) seen))
      ∙ tail-append (reverse (take (suc n) seen)) x
          (omega (arith, h, length-reverse (take (suc n) seen)))
      ∙ ap (λ t. t ++ x ∷ []) (tail-reverse-take n seen (omega (arith, h)))
      ∙ sym (reverse-cons x (take n seen))

  pub take-short :
      (n : ℕ) (xs : List A) → length (take (suc n) xs) ≤ n → take (suc n) xs ≡ take n xs
  take-short zero [] h = refl
  take-short (suc n) [] h = refl
  take-short zero (x ∷ xs) h = absurd (omega (arith, h))
  take-short (suc n) (x ∷ xs) h = ap (λ t. x ∷ t) (take-short n xs (omega (arith, h)))

  pub keep-reverse : (p : A → Bool) (xs : List A) → keep p (reverse xs) ≡ reverse (keep p xs)
  keep-reverse p [] = refl
  keep-reverse p (x ∷ xs) =
      rw (reverse-cons x xs, keep-append p (reverse xs) (x ∷ []), keep-reverse p xs)
        (elim (Bool-cases (p x)) [
          | inl h ↦ rw h (sym (reverse-cons x (keep p xs)))
          | inr h ↦ rw h (append-nil' (reverse (keep p xs)))
        ])
    where
      append-nil' : (zs : List A) → zs ++ [] ≡ zs
      append-nil' zs = mathlib.Core.List.append-nil zs

  pub keep-keep : (p q : A → Bool) (xs : List A) → keep p (keep q xs) ≡ keep q (keep p xs)
  keep-keep p q [] = refl
  keep-keep p q (x ∷ xs) = ground (arith, keep-keep p q xs)

-- Addresses in a list of them.
abbrev pub elem : ℕ → List ℕ → Bool
elem a [] = false
elem a (x ∷ xs) = (x == a) || elem a xs

-- No address stands twice.
abbrev pub IsDistinct : List ℕ → Type 0
IsDistinct [] = Unit
IsDistinct (x ∷ xs) = (elem x xs ≡ false) × IsDistinct xs

-- `list_del`, `hash_del`: the list without the node at an address.
abbrev pub unlink : ℕ → List ℕ → List ℕ
unlink a xs = keep (λ x. not (x == a)) xs

pub elem-append : (a : ℕ) (xs ys : List ℕ) → elem a (xs ++ ys) ≡ (elem a xs || elem a ys)
elem-append a [] ys = refl
elem-append a (x ∷ xs) ys = ground (arith, elem-append a xs ys)

pub elem-keep : (p : ℕ → Bool) (a : ℕ) (xs : List ℕ) → elem a (keep p xs) ≡ (p a && elem a xs)
elem-keep p a [] = ground arith
elem-keep p a (x ∷ xs) = elim (Bool-cases (x == a)) [
  | inl h ↦ rw ((==_iff x a).0 h) (ground (arith, elem-keep p a xs, ==_refl a))
  | inr h ↦ ground (arith, elem-keep p a xs)
]

pub unlink_absent : (a : ℕ) (xs : List ℕ) → elem a xs ≡ false → unlink a xs ≡ xs
unlink_absent a [] h = refl
unlink_absent a (x ∷ xs) h = ground (arith, unlink_absent a xs)

pub IsDistinct-keep : (p : ℕ → Bool) (xs : List ℕ) → IsDistinct xs → IsDistinct (keep p xs)
IsDistinct-keep p [] d = tt
IsDistinct-keep p (x ∷ xs) d = ground (arith, IsDistinct-keep p xs d.1, elem-keep p x xs)

pub IsDistinct-snoc :
    (a : ℕ) (xs : List ℕ) → IsDistinct xs → elem a xs ≡ false → IsDistinct (xs ++ a ∷ [])
IsDistinct-snoc a [] d h = (refl, tt)
IsDistinct-snoc a (x ∷ xs) d h = ground (arith, IsDistinct-snoc a xs d.1, elem-append x xs (a ∷ []))

pub elem-reverse : (a : ℕ) (xs : List ℕ) → elem a (reverse xs) ≡ elem a xs
elem-reverse a [] = refl
elem-reverse a (x ∷ xs) =
    ap (elem a) (reverse-cons x xs)
    ∙ elem-append a (reverse xs) (x ∷ [])
    ∙ ground (arith, elem-reverse a xs)

pub IsDistinct-reverse : (xs : List ℕ) → IsDistinct xs → IsDistinct (reverse xs)
IsDistinct-reverse [] d = tt
IsDistinct-reverse (x ∷ xs) d =
    rw (reverse-cons x xs)
      (IsDistinct-snoc x (reverse xs) (IsDistinct-reverse xs d.1) (elem-reverse x xs ∙ d.0))

-- Every element has the property.
module _ {ℓ κ} {A : Type ℓ} where
  abbrev pub All : (A → Type κ) → List A → Type κ
  All P [] = Unit
  All P (x ∷ xs) = P x × All P xs

  pub All-append : (P : A → Type κ) (xs ys : List A) → All P xs → All P ys → All P (xs ++ ys)
  All-append P [] ys h k = k
  All-append P (x ∷ xs) ys h k = (h.0, All-append P xs ys h.1 k)

  pub All-reverse : (P : A → Type κ) (xs : List A) → All P xs → All P (reverse xs)
  All-reverse P [] h = tt
  All-reverse P (x ∷ xs) h =
      rw (reverse-cons x xs) (All-append P (reverse xs) (x ∷ []) (All-reverse P xs h.1) (h.0, tt))

  pub All-change_first :
      (P : A → Type κ) (p : A → Bool) (f : A → A) (xs : List A)
      → ((x : A) → P x → P (f x))
      → All P xs
      → All P (change_first p f xs)
  All-change_first P p f [] k h = tt
  All-change_first P p f (x ∷ xs) k h = elim (Bool-cases (p x)) [
    | inl e ↦ rw e (k x h.0, h.1)
    | inr e ↦ rw e (h.0, All-change_first P p f xs k h.1)
  ]

  pub All-find_first :
      (P : A → Type κ) (p : A → Bool) (xs : List A) {x : A}
      → All P xs
      → find_first p xs ≡ some x
      → P x
  All-find_first P p [] h e = cc
  All-find_first P p (x ∷ xs) {x = y} h e = elim (Bool-cases (p x)) [
    | inl q ↦ let s : x ≡ y = first q in rw (sym s) h.0
    | inr q ↦ let s : find_first p xs ≡ some y = rw q at e in All-find_first P p xs h.1 s
  ]
    where
      first : p x ≡ true → x ≡ y
      first q = let s : some x ≡ some y = rw q at e in cc s
