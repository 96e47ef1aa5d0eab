-- ===== src/Prelude/Text.antt =====
-- The operations of JavaScript strings and numbers that the program uses: `includes`, `endsWith`,
-- `trim`, `split`, `slice`, `String(n)`, `parseInt` and `BigInt`. A character is a code point; the
-- two differ from JavaScript's UTF-16 units only beyond U+FFFF.
use Prim.Native.Nat.{ℕ, zero, suc, ◌+◌, ◌-◌, ◌*◌, ◌/◌, ◌%◌}
use Prim.Native.Char.{Char, code}
use Prim.Native.String.{String, [], ◌∷◌, ◌++◌}
use mathlib.Core.Bool.{Bool, true, ◌&&◌, ◌||◌}
use mathlib.Core.Option.{Option, none, some}
use mathlib.Core.List.{List}
use text.Mathlib.Text.{◌==◌ as str_eq, starts_with}
use text.Mathlib.TextEquality.{eq_iff, starts_with_iff}
use text.Mathlib.TextPositions.{eq_refl}
use mathlib.Core.Path.{◌≡◌, refl}
use mathlib.Core.Logic.{◌↔◌}
use umbra_gateway.Prelude.Tests.{ltb, leb, ◌==◌, if◌then◌else◌}
use umbra_gateway.Prelude.Int.{ℤ, pos, negsuc, neg}

abbrev pub append : String → String → String
append = ◌++◌

-- s === t
infix 50 ◌===◌
abbrev pub ◌===◌ : String → String → Bool
◌===◌ = str_eq

pub ===_iff : (s t : String) → ((s === t) ≡ true) ↔ (s ≡ t)
===_iff = eq_iff

pub ===_refl : (s : String) → (s === s) ≡ true
===_refl = eq_refl

abbrev pub starts : String → String → Bool
starts = starts_with

pub starts-append : (p s : String) → starts (append p s) p ≡ true
starts-append p s = (starts_with_iff (append p s) p).1 (s, refl)

-- `false` for `null`, `undefined` and the empty text
abbrev pub truthy : Option String → Option String
truthy none = none
truthy (some s) = if s === "" then none else some s

unfoldable pub includes : String → String → Bool
includes [] p = starts_with [] p
includes (c ∷ s) p = starts_with (c ∷ s) p || includes s p

unfoldable pub ends_with : String → String → Bool
ends_with [] p = [] === p
ends_with (c ∷ s) p = (c ∷ s) === p || ends_with s p

-- the characters that `trim` and `\s` take for white space, line ends included
unfoldable pub is_space : ℕ → Bool
is_space c =
    (leb 9 c && leb c 13)
    || c == 32
    || c == 160
    || c == 5760
    || (leb 8192 c && leb c 8202)
    || c == 8232
    || c == 8233
    || c == 8239
    || c == 8287
    || c == 12288
    || c == 65279

unfoldable pub trim_start : String → String
unfolding is_space
trim_start [] = []
trim_start (c ∷ s) = let rest = trim_start s in if is_space (code c) then rest else c ∷ s

unfoldable pub trim_end : String → String
unfolding is_space
trim_end [] = []
trim_end (c ∷ s) =
    let rest = trim_end s in if is_space (code c) && rest === "" then [] else c ∷ rest

unfoldable pub trim : String → String
unfolding trim_start trim_end
trim s = trim_end (trim_start s)

grow_first : Char → List String → List String
grow_first c List.[] = List.◌∷◌ (c ∷ []) List.[]
grow_first c (List.◌∷◌ part rest) = List.◌∷◌ (c ∷ part) rest

-- s.split(sep), for a separator of one character
unfoldable pub split : ℕ → String → List String
unfolding grow_first
split sep [] = List.◌∷◌ [] List.[]
split sep (c ∷ s) =
    let rest = split sep s in if code c == sep then List.◌∷◌ [] rest else grow_first c rest

-- s.slice(0, n)
unfoldable pub take : ℕ → String → String
take zero s = []
take (suc n) [] = []
take (suc n) (c ∷ s) = c ∷ take n s

-- s.slice(n)
unfoldable pub drop : ℕ → String → String
drop zero s = s
drop (suc n) [] = []
drop (suc n) (c ∷ s) = drop n s

unfoldable pub length : String → ℕ
length [] = 0
length (c ∷ s) = suc (length s)

-- s.slice(-n)
unfoldable pub take_last : ℕ → String → String
unfolding drop length
take_last n s = drop (length s - n) s

digit : ℕ → String
digit d =
    if d == 0
    then "0"
    else if d == 1
    then "1"
    else if d == 2
    then "2"
    else if d == 3
    then "3"
    else if d == 4
    then "4"
    else if d == 5
    then "5"
    else if d == 6
    then "6"
    else if d == 7
    then "7"
    else if d == 8
    then "8"
    else "9"

show_fuel : ℕ → ℕ → String
unfolding digit
show_fuel zero n = []
show_fuel (suc f) n =
    let front = show_fuel f (n / 10) in if ltb n 10 then digit n else front ++ digit (n % 10)

-- n.toString(): a number has fewer digits than itself plus one.
unfoldable pub show_ℕ : ℕ → String
unfolding show_fuel
show_ℕ n = show_fuel (suc n) n

unfoldable pub show_ℤ : ℤ → String
unfolding show_ℕ
show_ℤ (pos n) = show_ℕ n
show_ℤ (negsuc n) = "-" ++ show_ℕ (suc n)

-- the value of a digit, at most 15; 99 for any other character
unfoldable pub digit_value : ℕ → ℕ
digit_value c =
    if leb b'0' c && leb c b'9'
    then c - b'0'
    else if leb b'a' c && leb c b'f'
    then c - 87
    else if leb b'A' c && leb c b'F'
    then c - 55
    else 99

-- all characters are digits of the base
unfoldable pub digits_from : ℕ → ℕ → String → Option ℕ
unfolding digit_value
digits_from base acc [] = some acc
digits_from base acc (c ∷ s) =
    let rest = digits_from base (acc * base + digit_value (code c)) s in
    if ltb (digit_value (code c)) base then rest else none

digits : ℕ → String → Option ℕ
unfolding digits_from
digits base [] = none
digits base (c ∷ s) = digits_from base 0 (c ∷ s)

map_ℤ : (ℕ → ℤ) → Option ℕ → Option ℤ
map_ℤ f none = none
map_ℤ f (some n) = some (f n)

-- BigInt(s): `none` for its SyntaxError
unfoldable pub big_int : String → Option ℤ
unfolding trim digits map_ℤ drop
big_int s =
    let t = trim s in
    if t === ""
    then some (pos 0)
    else if starts_with t "0x" || starts_with t "0X"
    then map_ℤ pos (digits 16 (drop 2 t))
    else if starts_with t "0o" || starts_with t "0O"
    then map_ℤ pos (digits 8 (drop 2 t))
    else if starts_with t "0b" || starts_with t "0B"
    then map_ℤ pos (digits 2 (drop 2 t))
    else if starts_with t "-"
    then map_ℤ neg (digits 10 (drop 1 t))
    else if starts_with t "+"
    then map_ℤ pos (digits 10 (drop 1 t))
    else map_ℤ pos (digits 10 t)

-- the longest prefix of digits of the base, with at least one digit
prefix_from : ℕ → ℕ → String → ℕ
unfolding digit_value
prefix_from base acc [] = acc
prefix_from base acc (c ∷ s) =
    let rest = prefix_from base (acc * base + digit_value (code c)) s in
    if ltb (digit_value (code c)) base then rest else acc

prefix_value : ℕ → String → Option ℕ
unfolding prefix_from
prefix_value base [] = none
prefix_value base (c ∷ s) =
    if ltb (digit_value (code c)) base then some (prefix_from base 0 (c ∷ s)) else none

-- parseInt(s, 10): `none` for NaN
unfoldable pub parse_int10 : String → Option ℤ
unfolding trim_start prefix_value map_ℤ drop
parse_int10 s =
    let t = trim_start s in
    if starts_with t "-"
    then map_ℤ neg (prefix_value 10 (drop 1 t))
    else if starts_with t "+"
    then map_ℤ pos (prefix_value 10 (drop 1 t))
    else map_ℤ pos (prefix_value 10 t)

-- the digits after a prefix `0x`
hex_prefix : String → Option ℕ
unfolding prefix_value drop
hex_prefix s =
    if starts_with s "0x" || starts_with s "0X"
    then prefix_value 16 (drop 2 s)
    else prefix_value 16 s

-- parseInt(s, 16): `none` for NaN
unfoldable pub parse_int16 : String → Option ℤ
unfolding trim_start hex_prefix map_ℤ drop
parse_int16 s =
    let t = trim_start s in
    if starts_with t "-"
    then map_ℤ neg (hex_prefix (drop 1 t))
    else if starts_with t "+"
    then map_ℤ pos (hex_prefix (drop 1 t))
    else map_ℤ pos (hex_prefix t)
