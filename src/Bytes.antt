-- ===== src/Bytes.antt =====
-- `bytes.fromhex`, `bytes.hex`, slices, `int.to_bytes` and `str.encode("utf-8")` of Python, as far as
-- the program uses them.
use qnm_node.Base.{zero, suc, length}
use qnm_node.Base.{
  ℕ, ◌+◌, ◌-◌, ◌*◌, ◌/◌, ◌%◌, ◌<◌, ◌≡◌, refl, false, ◌&&◌, ◌||◌, Option, none, some, List, [], ◌∷◌,
  ◌++◌, arith, ltb, leb, nat_beq, list_eq, nat_eq, Text, if◌then◌else◌,
}

-- The value of a hexadecimal digit of either case; 16 for any other character.
unfoldable pub nibble : ℕ → ℕ
nibble c =
    if leb b'0' c && leb c b'9'
    then c - b'0'
    else if leb b'a' c && leb c b'f'
    then c - 87
    else if leb b'A' c && leb c b'F'
    then c - 55
    else 16

abbrev push : ℕ → Option (List ℕ) → Option (List ℕ)
push b none = none
push b (some bs) = some (b ∷ bs)

-- `bytes.fromhex(s)`, `none` for a ValueError. Blanks may stand between bytes.
unfoldable pub from_hex : Text → Option (List ℕ)
from_hex [] = some []
from_hex (c ∷ []) = if nat_beq c 32 || leb 9 c && leb c 13 then some [] else none
from_hex (c ∷ d ∷ s) =
    let after_blank = from_hex (d ∷ s) in
    let rest = push (nibble c * 16 + nibble d) (from_hex s) in
    if nat_beq c 32 || leb 9 c && leb c 13
    then after_blank
    else if ltb (nibble c) 16 && ltb (nibble d) 16
    then rest
    else none

unfoldable pub hex_digit : ℕ → ℕ
hex_digit n = if ltb n 10 then n + b'0' else n + 87

-- `bs.hex()`
unfoldable pub to_hex : List ℕ → Text
unfolding hex_digit
to_hex [] = []
to_hex (b ∷ bs) = hex_digit (b / 16) ∷ hex_digit (b % 16) ∷ to_hex bs

abbrev pub IsBytes : List ℕ → Type 0
IsBytes [] = Unit
IsBytes (b ∷ bs) = (b < 256) × IsBytes bs

nibble-hex_digit : (n : ℕ) → n < 16 → nibble (hex_digit n) ≡ n
unfolding nibble hex_digit
nibble-hex_digit n h = ground arith

hex_digit-not-blank :
    (n : ℕ)
    → n < 16
    → (nat_beq (hex_digit n) 32 || leb 9 (hex_digit n) && leb (hex_digit n) 13) ≡ false
unfolding hex_digit
hex_digit-not-blank n h = ground arith

-- Decoding what was encoded gives the bytes back.
pub from_hex-to_hex : (bs : List ℕ) → IsBytes bs → from_hex (to_hex bs) ≡ some bs
unfolding from_hex to_hex
from_hex-to_hex [] h = refl
from_hex-to_hex (b ∷ bs) h = ground (
  arith,
  nibble-hex_digit (b / 16),
  nibble-hex_digit (b % 16),
  hex_digit-not-blank (b / 16),
  from_hex-to_hex bs h.1,
)

utf8_code : ℕ → List ℕ
utf8_code c =
    if ltb c 128
    then c ∷ []
    else if ltb c 2048
    then (192 + c / 64) ∷ (128 + c % 64) ∷ []
    else if ltb c 65536
    then (224 + c / 4096) ∷ (128 + c / 64 % 64) ∷ (128 + c % 64) ∷ []
    else (240 + c / 262144) ∷ (128 + c / 4096 % 64) ∷ (128 + c / 64 % 64) ∷ (128 + c % 64) ∷ []

-- `s.encode("utf-8")`
unfoldable pub utf8 : Text → List ℕ
unfolding utf8_code
utf8 [] = []
utf8 (c ∷ s) = utf8_code c ++ utf8 s

-- `xs[n:]` and `xs[:n]`
unfoldable pub drop : ℕ → List ℕ → List ℕ
drop zero xs = xs
drop (suc n) [] = []
drop (suc n) (x ∷ xs) = drop n xs

unfoldable pub take : ℕ → List ℕ → List ℕ
take zero xs = []
take (suc n) [] = []
take (suc n) (x ∷ xs) = x ∷ take n xs

-- `n.to_bytes(4, "big")` and `int.from_bytes(bs, "big")`
unfoldable pub to_bytes4 : ℕ → List ℕ
to_bytes4 n = (n / 16777216 % 256) ∷ (n / 65536 % 256) ∷ (n / 256 % 256) ∷ (n % 256) ∷ []

unfoldable pub from_bytes : ℕ → List ℕ → ℕ
from_bytes n [] = n
from_bytes n (b ∷ bs) = from_bytes (n * 256 + b) bs

pub from_bytes-to_bytes4 : (n : ℕ) → n < 4294967296 → from_bytes 0 (to_bytes4 n) ≡ n
unfolding from_bytes to_bytes4
from_bytes-to_bytes4 n l = omega arith

pub take-append : (xs ys : List ℕ) → take (length xs) (xs ++ ys) ≡ xs
unfolding take
take-append [] ys = refl
take-append (x ∷ xs) ys = cc (take-append xs ys)

pub drop-append : (xs ys : List ℕ) → drop (length xs) (xs ++ ys) ≡ ys
unfolding drop
drop-append [] ys = refl
drop-append (x ∷ xs) ys = drop-append xs ys

pub take-all : (xs : List ℕ) → take (length xs) xs ≡ xs
unfolding take
take-all [] = refl
take-all (x ∷ xs) = cc (take-all xs)

pub take-drop : (n : ℕ) (xs : List ℕ) → take n xs ++ drop n xs ≡ xs
unfolding take drop
take-drop zero xs = refl
take-drop (suc n) [] = refl
take-drop (suc n) (x ∷ xs) = cc (take-drop n xs)

pub length-drop : (n : ℕ) (xs : List ℕ) → length (drop n xs) ≡ length xs - n
unfolding drop
length-drop zero xs = omega arith
length-drop (suc n) [] = omega arith
length-drop (suc n) (x ∷ xs) = omega (arith, length-drop n xs)
