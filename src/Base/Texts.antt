-- ===== src/Base/Texts.antt =====
-- Python's `str` and `bytes` as lists of code points or bytes, with the methods the program calls.
-- `lower` and `strip` follow Python on the ASCII range, which is where the program's tokens lie.
use Prim.Native.Nat.{ℕ, ◌+◌}
use Prim.Native.Char.{code}
use Prim.Native.String.{String}
use mathlib.Core.Path.{◌≡◌, refl}
use mathlib.Core.Bool.{Bool, true, false, ◌&&◌, ◌||◌}
use mathlib.Core.List.{List, [], ◌∷◌, map, reverse}
use native.Mathlib.Omega.{arith}
use qnm_node.Base.Tests.{leb, nat_beq, if◌then◌else◌}

abbrev pub Text : Type 0
Text = List ℕ

-- A text literal.
abbrev pub codes : String → Text
codes String.[] = []
codes (String.◌∷◌ c s) = code c ∷ codes s

-- `not s`
abbrev pub is_empty : Text → Bool
is_empty [] = true
is_empty (c ∷ s) = false

-- `a or b` on texts
abbrev pub or_else : Text → Text → Text
or_else [] t = t
or_else (c ∷ s) t = c ∷ s

unfoldable pub lower_code : ℕ → ℕ
lower_code c = if leb b'A' c && leb c b'Z' then c + 32 else c

-- `s.lower()`
unfoldable pub lower : Text → Text
lower s = map lower_code s

unfoldable pub is_space : ℕ → Bool
is_space c = nat_beq c 32 || leb 9 c && leb c 13 || leb 28 c && leb c 31

unfoldable pub strip_left : Text → Text
strip_left [] = []
strip_left (c ∷ s) = let rest = strip_left s in if is_space c then rest else c ∷ s

-- `s.strip()`
unfoldable pub strip : Text → Text
unfolding strip_left is_space
strip s = reverse (strip_left (reverse (strip_left s)))

-- `c in "0123456789abcdef"`
unfoldable pub is_hex : ℕ → Bool
is_hex c = leb b'0' c && leb c b'9' || leb b'a' c && leb c b'f'

pub is_hex-lower_code : (c : ℕ) → is_hex c ≡ true → lower_code c ≡ c
unfolding is_hex lower_code
is_hex-lower_code c h = ground arith

pub lower_code_idem : (c : ℕ) → lower_code (lower_code c) ≡ lower_code c
unfolding lower_code
lower_code_idem c = ground arith

pub lower_idem : (s : Text) → lower (lower s) ≡ lower s
unfolding lower
lower_idem [] = refl
lower_idem (c ∷ s) = cc (lower_code_idem c, lower_idem s)

-- Python's `a > b` on texts: lexicographic by code point.
unfoldable pub text_gt : Text → Text → Bool
text_gt [] t = false
text_gt (c ∷ s) [] = true
text_gt (c ∷ s) (d ∷ t) = let rest = text_gt s t in if nat_beq c d then rest else leb d c

pub text_gt_total : (s t : Text) → text_gt s t ≡ false → text_gt t s ≡ false → s ≡ t
unfolding text_gt
text_gt_total [] [] h k = refl
text_gt_total [] (d ∷ t) h k = cc
text_gt_total (c ∷ s) [] h k = cc
text_gt_total (c ∷ s) (d ∷ t) h k = ground (arith, text_gt_total s t)

pub text_gt_asymm : (s t : Text) → text_gt s t ≡ true → text_gt t s ≡ false
unfolding text_gt
text_gt_asymm [] [] h = refl
text_gt_asymm [] (d ∷ t) h = cc
text_gt_asymm (c ∷ s) [] h = refl
text_gt_asymm (c ∷ s) (d ∷ t) h = ground (arith, text_gt_asymm s t)
