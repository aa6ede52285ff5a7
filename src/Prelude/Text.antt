-- ===== src/Prelude/Text.antt =====
-- C strings as lists of bytes, and the functions of <string.h> that the sources call.
use Prim.Native.Nat.{ℕ, zero, suc, ◌-◌}
use Prim.Native.Char.{code}
use Prim.Native.String.{String}
use mathlib.Core.Bool.{Bool, true, false, ◌&&◌}
use mathlib.Core.List.{List, [], ◌∷◌}
use model_lib.Prelude.Tests.{◌==◌}
use model_lib.Prelude.Lists.{take}

-- The bytes of an ASCII literal.
abbrev pub codes : String → List ℕ
codes String.[] = []
codes (String.◌∷◌ c s) = code c ∷ codes s

-- The string that a buffer holds: its bytes up to the first NUL.
abbrev pub c_str : List ℕ → List ℕ
c_str [] = []
c_str (zero ∷ bs) = []
c_str (suc b ∷ bs) = suc b ∷ c_str bs

-- `strcmp(s, t) == 0`, for two strings.
abbrev pub str_eq : List ℕ → List ℕ → Bool
str_eq [] [] = true
str_eq [] (b ∷ t) = false
str_eq (a ∷ s) [] = false
str_eq (a ∷ s) (b ∷ t) = (a == b) && str_eq s t

-- `strncmp(s, t, n) == 0`.
abbrev pub strn_eq : List ℕ → List ℕ → ℕ → Bool
strn_eq s t n = str_eq (take n s) (take n t)

-- `strncpy(dst, s, n - 1); dst[n - 1] = 0` or `strncpy(dst, s, n); dst[n - 1] = 0`, read as a
-- string: at most `n - 1` characters are kept.
abbrev pub copy_str : ℕ → List ℕ → List ℕ
copy_str n s = take (n - 1) s
