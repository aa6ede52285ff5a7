-- ===== src/ProcInterface/Message.antt =====
-- The message of experiments/03_proc_interface.c always is a string inside its array.
use model_lib.Prelude.{
  ℕ, zero, suc, ◌≤◌, ◌<◌, ◌≡◌, refl, ap, ◌∙◌, inl, inr, false, List, [], ◌∷◌, Option, some, arith,
  leb, length, get_elem?, Bool-cases,
}
use model_lib.Prelude.Text.{c_str}
use model_lib.Kernel.{Line, Reply, written, refused, efault, line, str}
use model_lib.ProcInterface.State.{ProcData, UserCopy, whole, fault, overwrite, store}
use model_lib.ProcInterface.Files.{message_show, copy_message, message_write}

-- The array has 256 bytes, and the last one is NUL.
abbrev pub IsTerminated : List ℕ → Type 0
IsTerminated buf = (length buf ≡ 256) × (get_elem? buf 255 ≡ some 0)

-- Writing over the front of an array that is long enough stays inside it, and leaves the rest.
overwrite-inside :
    (bs buf : List ℕ)
    → length bs ≤ length buf
    → (buf' : List ℕ) × (overwrite bs buf ≡ some buf')
      × (length buf' ≡ length buf)
      × ((i : ℕ) → length bs ≤ i → get_elem? buf' i ≡ get_elem? buf i)
overwrite-inside [] buf h = (buf, refl, refl, λ i h. refl)
overwrite-inside (b ∷ bs) [] h = absurd (omega (arith, h))
overwrite-inside (b ∷ bs) (x ∷ buf) h =
    let (buf', e, l, same) = overwrite-inside bs buf (omega (arith, h)) in
    (b ∷ buf', rw e refl, ap suc l, rest buf' same)
  where
    rest :
        (buf' : List ℕ)
        → ((i : ℕ) → length bs ≤ i → get_elem? buf' i ≡ get_elem? buf i)
        → (i : ℕ) → length (b ∷ bs) ≤ i
        → get_elem? (b ∷ buf') i ≡ get_elem? (x ∷ buf) i
    rest buf' same zero le = absurd (omega (arith, le))
    rest buf' same (suc i) le = same i (omega (arith, le))

store-inside :
    (buf : List ℕ) (i : ℕ)
    → i < length buf
    → (buf' : List ℕ) × (store buf i 0 ≡ some buf')
      × (length buf' ≡ length buf)
      × ((j : ℕ) → get_elem? buf j ≡ some 0 → get_elem? buf' j ≡ some 0)
store-inside [] i h = absurd (omega (arith, h))
store-inside (x ∷ buf) zero h = (0 ∷ buf, refl, refl, kept)
  where
    kept : (j : ℕ) → get_elem? (x ∷ buf) j ≡ some 0 → get_elem? (0 ∷ buf) j ≡ some 0
    kept zero e = refl
    kept (suc j) e = e
store-inside (x ∷ buf) (suc i) h =
    let (buf', e, l, same) = store-inside buf i (omega (arith, h)) in
    (x ∷ buf', rw e refl, ap suc l, kept buf' same)
  where
    kept :
        (buf' : List ℕ)
        → ((j : ℕ) → get_elem? buf j ≡ some 0 → get_elem? buf' j ≡ some 0)
        → (j : ℕ) → get_elem? (x ∷ buf) j ≡ some 0
        → get_elem? (x ∷ buf') j ≡ some 0
    kept buf' same zero e = e
    kept buf' same (suc j) e = same j e

-- No more bytes come than were asked for, and all of them if nothing fails.
abbrev pub IsUserCopy : ℕ → UserCopy → Type 0
IsUserCopy count (whole bytes) = length bytes ≡ count
IsUserCopy count (fault bytes) = length bytes ≤ count

-- What a write of the message leaves: no access outside the array, and a string inside it.
abbrev pub Kept : Option (ProcData × List Line × Reply) → Type 0
Kept r =
    (d' : ProcData) × (out : List Line) × (reply : Reply) × (r ≡ some (d', out, reply))
    × IsTerminated d'.user_message

copy_message-Kept :
    (count : ℕ) (copied : UserCopy) (d : ProcData)
    → IsUserCopy count copied
    → count ≤ 255
    → IsTerminated d.user_message
    → Kept (copy_message count copied d)
unfolding copy_message
copy_message-Kept count (fault bytes) d c h t =
    let (buf, e, l, same) = overwrite-inside bytes d.user_message (omega (arith, c, h, t.0)) in
    (
      record d { user_message = buf },
      [],
      refused efault,
      rw e refl,
      (l ∙ t.0, same 255 (omega (arith, c, h)) ∙ t.1),
    )
copy_message-Kept count (whole bytes) d c h t =
    let (buf, e, l, same) = overwrite-inside bytes d.user_message (omega (arith, c, h, t.0)) in
    let (buf', e', l', same') = store-inside buf count (omega (arith, h, l, t.0)) in
    (
      record d { user_message = buf' },
      line "proc_demo: User message updated: %s" (str (c_str buf') ∷ []) ∷ [],
      written count,
      rw (e, e') refl,
      (l' ∙ l ∙ t.0, same' 255 (same 255 (omega (arith, c, h)) ∙ t.1)),
    )

pub message_write-Kept :
    (count : ℕ) (copied : UserCopy) (d : ProcData)
    → IsUserCopy count copied
    → IsTerminated d.user_message
    → Kept (message_write count copied d)
unfolding message_write
message_write-Kept count copied d c t = elim (Bool-cases (leb 256 count)) [
  | inl e ↦ rw e (_, _, _, refl, t)
  | inr e ↦ rw e (copy_message-Kept count copied d c (ground arith) t)
]

-- The string in the array, once its bytes and the NUL are written.
c_str-written :
    (bs buf : List ℕ)
    → length bs < length buf
    → (buf' buf'' : List ℕ) × (overwrite bs buf ≡ some buf')
      × (store buf' (length bs) 0 ≡ some buf'')
      × (c_str buf'' ≡ c_str bs)
c_str-written [] [] h = absurd (omega (arith, h))
c_str-written [] (x ∷ buf) h = (x ∷ buf, 0 ∷ buf, refl, refl, refl)
c_str-written (b ∷ bs) [] h = absurd (omega (arith, h))
c_str-written (b ∷ bs) (x ∷ buf) h =
    let (buf', buf'', e, e', s) = c_str-written bs buf (omega (arith, h)) in
    (b ∷ buf', b ∷ buf'', rw e refl, rw e' refl, same b buf'' s)
  where
    same : (b : ℕ) (t : List ℕ) → c_str t ≡ c_str bs → c_str (b ∷ t) ≡ c_str (b ∷ bs)
    same zero t s = refl
    same (suc c) t s = ap (λ u. suc c ∷ u) s

-- A write of fewer than 256 bytes that are all copied makes no access outside the array; the reply
-- is their number, and a read shows them, up to the first NUL: nothing of the old message is left.
pub message_show-message_write :
    (bytes : List ℕ) (d : ProcData)
    → length bytes < 256
    → IsTerminated d.user_message
    → (d' : ProcData) × (out : List Line) × (message_write (length bytes) (whole bytes) d
        ≡ some (d', out, written (length bytes)))
      × (message_show d' ≡ line "%s" (str (c_str bytes) ∷ []) ∷ [])
unfolding message_write message_show copy_message
message_show-message_write bytes d h t =
    let (buf, buf', e, e', s) = c_str-written bytes d.user_message (omega (arith, h, t.0)) in
    let fits : leb 256 (length bytes) ≡ false = ground (arith, h) in
    (
      record d { user_message = buf' },
      line "proc_demo: User message updated: %s" (str (c_str buf') ∷ []) ∷ [],
      rw (fits, e, e') refl,
      ap (λ u. line "%s" (str u ∷ []) ∷ []) s,
    )
