-- ===== src/Bytes/Ascii.antt =====
-- Text operations on ASCII: decimal numbers, prefixes and splits, as Rust's `str` has them.
use proxygit.Prelude.{
  ℕ, zero, suc, ◌+◌, ◌-◌, ◌*◌, ◌/◌, ◌%◌, ◌^◌, Bool, true, false, ◌&&◌, ◌||◌, List, [], ◌∷◌, length,
  is_empty, ltb, leb, ◌==◌, if◌then◌else◌, Option, none, some,
}
use proxygit.Bytes.{Bytes}
use mathlib.Core.List.{reverse}

-- `Display` of an unsigned integer, on fuel: a round more than the number is enough.
unfoldable pub decimal_from : ℕ → ℕ → Bytes → Bytes
decimal_from zero n rest = rest
decimal_from (suc fuel) n rest =
    let longer = decimal_from fuel (n / 10) ((b'0' + n % 10) ∷ rest) in
    if ltb n 10 then (b'0' + n) ∷ rest else longer

unfoldable pub decimal : ℕ → Bytes
unfolding decimal_from
decimal n = decimal_from (suc n) n []

abbrev pub is_digit : ℕ → Bool
is_digit c = leb b'0' c && leb c b'9'

-- The digits of a `usize`, read from the left; a digit that does not fit in 64 bits is an error.
unfoldable pub digits_value : ℕ → Bytes → Option ℕ
digits_value n [] = some n
digits_value n (c ∷ cs) =
    let later = digits_value (n * 10 + (c - b'0')) cs in
    if is_digit c && ltb (n * 10 + (c - b'0')) (2 ^ 64) then later else none

-- `str::parse::<usize>`: an optional `+`, then one digit at least.
unfoldable pub parse_usize : Bytes → Option ℕ
unfolding digits_value
parse_usize [] = none
parse_usize (c ∷ cs) =
    if c == b'+' then (if is_empty cs then none else digits_value 0 cs) else digits_value 0 (c ∷ cs)

unfoldable pub starts_with : Bytes → Bytes → Bool
starts_with [] s = true
starts_with (p ∷ ps) [] = false
starts_with (p ∷ ps) (c ∷ cs) = p == c && starts_with ps cs

-- `str::strip_prefix`.
unfoldable pub strip_prefix : Bytes → Bytes → Option Bytes
strip_prefix [] s = some s
strip_prefix (p ∷ ps) [] = none
strip_prefix (p ∷ ps) (c ∷ cs) = let rest = strip_prefix ps cs in if p == c then rest else none

-- `str::split_once` at a byte: what stands before the first one and what follows it.
unfoldable pub split_once : ℕ → Bytes → Option (Bytes × Bytes)
split_once c [] = none
split_once c (b ∷ bs) =
    let later : Option (Bytes × Bytes) = elim (split_once c bs) [
      | none ↦ none
      | some (x, y) ↦ some (b ∷ x, y)
    ] in
    if b == c then some ([], bs) else later

-- `str::contains` of a byte.
unfoldable pub has_byte : ℕ → Bytes → Bool
has_byte c [] = false
has_byte c (b ∷ bs) = b == c || has_byte c bs

-- `str::contains` of a text.
unfoldable pub contains : Bytes → Bytes → Bool
unfolding starts_with
contains p [] = is_empty p
contains p (c ∷ cs) = starts_with p (c ∷ cs) || contains p cs

-- `str::split` at a byte.
unfoldable pub split : ℕ → Bytes → List Bytes
split c [] = [] ∷ []
split c (b ∷ bs) = elim (split c bs) [
  | [] ↦ (b ∷ []) ∷ []
  | piece ∷ pieces ↦ if b == c then [] ∷ piece ∷ pieces else (b ∷ piece) ∷ pieces
]

-- `u8::to_ascii_lowercase`, for `eq_ignore_ascii_case`.
abbrev pub lower : ℕ → ℕ
lower c = if leb b'A' c && leb c b'Z' then c + 32 else c

unfoldable pub eq_ignore_ascii_case : Bytes → Bytes → Bool
eq_ignore_ascii_case [] [] = true
eq_ignore_ascii_case [] (y ∷ ys) = false
eq_ignore_ascii_case (x ∷ xs) [] = false
eq_ignore_ascii_case (x ∷ xs) (y ∷ ys) = lower x == lower y && eq_ignore_ascii_case xs ys

-- `str::ends_with`, and the start of a text without the suffix, both on reversed text.
unfoldable pub ends_with : Bytes → Bytes → Bool
unfolding starts_with
ends_with suffix s = starts_with (reverse suffix) (reverse s)

unfoldable pub trim_prefixes : ℕ → Bytes → Bytes → Bytes
unfolding strip_prefix
trim_prefixes zero p s = s
trim_prefixes (suc fuel) p s = elim (strip_prefix p s) [
  | none ↦ s
  | some rest ↦ trim_prefixes fuel p rest
]

-- `str::trim_end_matches` of a text that is not empty: each round takes a byte at least.
unfoldable pub trim_end_matches : Bytes → Bytes → Bytes
unfolding trim_prefixes
trim_end_matches suffix s = reverse (trim_prefixes (length s) (reverse suffix) (reverse s))

-- `BufRead::read_line`: the bytes up to a line feed, which is kept, and what follows.
unfoldable pub read_line : Bytes → Bytes × Bytes
read_line [] = ([], [])
read_line (b ∷ bs) =
    let (line, rest) = read_line bs in if b == 10 then (b ∷ [], bs) else (b ∷ line, rest)
