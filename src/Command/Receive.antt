-- ===== src/Command/Receive.antt =====
-- What a write handler makes of the bytes that a user writes.
use model_lib.Prelude.{
  ℕ, zero, suc, ◌<◌, ◌≡◌, refl, ap, inl, inr, List, [], ◌∷◌, ◌++◌, Option, none, some, arith, ◌==◌,
  leb, if◌then◌else◌, length, get_elem?, Bool-cases, Option-cases,
}
use model_lib.Prelude.Text.{c_str}
use model_lib.Kernel.{einval, efault}
use model_lib.Command.{Received, command, rejected, chomp, receive}

-- `copy_from_user` fails or brings `count` bytes.
abbrev pub IsCopied : ℕ → Option (List ℕ) → Type 0
IsCopied count none = Unit
IsCopied count (some bytes) = length bytes ≡ count

-- One newline at the end is dropped.
abbrev pub drop_newline : List ℕ → List ℕ
drop_newline [] = []
drop_newline (b ∷ []) = if b == 10 then [] else b ∷ []
drop_newline (b ∷ c ∷ bs) = b ∷ drop_newline (c ∷ bs)

-- The text that a write brings, or why it is refused; `size` is that of the buffer.
abbrev pub spec_received : ℕ → ℕ → Option (List ℕ) → Received
spec_received size count none = rejected (if leb size count then einval else efault)
spec_received size count (some bytes) =
    if leb size count then rejected einval else command (c_str (drop_newline bytes))

-- What is left after `chomp`, where it makes no bad access.
Chomps : ℕ → List ℕ → List ℕ → Type 0
Chomps count cmd text = (out : List ℕ) × (chomp count cmd ≡ some out) × (c_str out ≡ c_str text)

c_str-cons : (b : ℕ) (s t : List ℕ) → c_str s ≡ c_str t → c_str (b ∷ s) ≡ c_str (b ∷ t)
c_str-cons zero s t e = refl
c_str-cons (suc b) s t e = ap (λ r. suc b ∷ r) e

c_str_end : (b : ℕ) → c_str (b ∷ 0 ∷ []) ≡ c_str (b ∷ [])
c_str_end zero = refl
c_str_end (suc b) = refl

chomp-cons :
    (b n : ℕ) (xs out : List ℕ)
    → chomp (suc n) xs ≡ some out
    → chomp (suc (suc n)) (b ∷ xs) ≡ some (b ∷ out)
unfolding chomp
chomp-cons b n xs out e = elim (Option-cases (get_elem? xs n)) [
  | inl q ↦ absurd (ground arith)
  | inr (c, q) ↦ ground arith
]

chomp-Chomps :
    (b : ℕ) (bs : List ℕ) → Chomps (suc (length bs)) (b ∷ bs ++ 0 ∷ []) (drop_newline (b ∷ bs))
unfolding Chomps chomp
chomp-Chomps b [] = elim (Bool-cases (b == 10)) [
  | inl q ↦ (0 ∷ 0 ∷ [], rw q, rw q)
  | inr q ↦ (b ∷ 0 ∷ [], rw q, rw q (c_str_end b))
]
chomp-Chomps b (c ∷ bs) =
    let (out, e, q) = chomp-Chomps c bs in
    (
      b ∷ out,
      chomp-cons b (length bs) (c ∷ bs ++ 0 ∷ []) out e,
      c_str-cons b out (drop_newline (c ∷ bs)) q,
    )

receive-bytes :
    (size count : ℕ) (bytes : List ℕ)
    → length bytes ≡ count
    → 0 < count
    → receive size count (some bytes) ≡ some (spec_received size count (some bytes))
unfolding receive Chomps
receive-bytes size count [] e h = absurd (omega arith)
receive-bytes size count (b ∷ bs) e h = elim (Bool-cases (leb size count)) [
  | inl q ↦ rw q
  | inr q ↦ let (out, w, t) = chomp-Chomps b bs in rw (q, ← e) (rw w (ap (λ s. some (command s)) t))
]

-- A write that is not empty is read without a bad access: too many bytes and bytes that cannot be
-- copied are refused, and of the rest the text is what stands before the first NUL, without a
-- newline in last place.
pub receive-received :
    (size count : ℕ) (copied : Option (List ℕ))
    → IsCopied count copied
    → 0 < count
    → receive size count copied ≡ some (spec_received size count copied)
unfolding receive
receive-received size count none c h = refl
receive-received size count (some bytes) c h = receive-bytes size count bytes c h

-- An empty write reads and may write `cmd[-1]`.
pub receive_empty : (size : ℕ) (bytes : List ℕ) → 0 < size → receive size 0 (some bytes) ≡ none
unfolding receive chomp
receive_empty size bytes h = ground arith
