-- ===== src/Auth.antt =====
-- Bearer tokens, crates/proxygit-common/src/auth.rs.
pub mod Compare
pub mod Encoding
use proxygit.Prelude.{
  ℕ, ◌+◌, ◌-◌, ◌*◌, ◌/◌, ◌%◌, ◌^◌, Bool, true, false, not, ◌&&◌, ◌||◌, List, [], ◌∷◌, ◌++◌, length,
  get_or, is_empty, take, drop, leb, ◌==◌, if◌then◌else◌, Option, none, some, bit_xor, bit_or,
}
use proxygit.Bytes.{Bytes, bytes_eq}
use proxygit.Bytes.Utf8.{text}
use proxygit.Bytes.Ascii.{strip_prefix}
use proxygit.Result.{Result, ok, err, Error, no_token}
use mathlib.Core.List.{reverse}

-- `char::is_whitespace` of one byte, of two and of three.
abbrev pub white1 : ℕ → Bool
white1 a = (leb 0x09 a && leb a 0x0d) || a == 0x20

abbrev pub white2 : ℕ → ℕ → Bool
white2 a b = a == 0xc2 && (b == 0x85 || b == 0xa0)

abbrev pub white3 : ℕ → ℕ → ℕ → Bool
white3 a b c =
    (a == 0xe1 && b == 0x9a && c == 0x80)
    || (a == 0xe2
        && b == 0x80
        && ((leb 0x80 c && leb c 0x8a) || c == 0xa8 || c == 0xa9 || c == 0xaf))
    || (a == 0xe2 && b == 0x81 && c == 0x9f)
    || (a == 0xe3 && b == 0x80 && c == 0x80)

unfoldable pub trim_start : Bytes → Bytes
trim_start [] = []
trim_start (a ∷ []) = if white1 a then [] else a ∷ []
trim_start (a ∷ b ∷ []) =
    let rest = trim_start (b ∷ []) in
    if white1 a then rest else if white2 a b then [] else a ∷ b ∷ []
trim_start (a ∷ b ∷ c ∷ bs) =
    let one = trim_start (b ∷ c ∷ bs) in
    let two = trim_start (c ∷ bs) in
    let three = trim_start bs in
    if white1 a
    then one
    else if white2 a b
    then two
    else if white3 a b c
    then three
    else a ∷ b ∷ c ∷ bs

-- The same on reversed text: the last byte of a character comes first.
unfoldable pub trim_back : Bytes → Bytes
trim_back [] = []
trim_back (a ∷ []) = if white1 a then [] else a ∷ []
trim_back (b ∷ a ∷ []) =
    let rest = trim_back (a ∷ []) in
    if white1 b then rest else if white2 a b then [] else b ∷ a ∷ []
trim_back (c ∷ b ∷ a ∷ bs) =
    let one = trim_back (b ∷ a ∷ bs) in
    let two = trim_back (a ∷ bs) in
    let three = trim_back bs in
    if white1 c
    then one
    else if white2 b c
    then two
    else if white3 a b c
    then three
    else c ∷ b ∷ a ∷ bs

-- `str::trim`.
unfoldable pub trim : Bytes → Bytes
unfolding trim_start trim_back
trim s = reverse (trim_back (reverse (trim_start s)))

-- The loop of `tokens_equal`, whose `diff` is `seen` so far.
unfoldable pub difference : ℕ → Bytes → Bytes → ℕ
difference seen [] b = seen
difference seen (x ∷ xs) [] = seen
difference seen (x ∷ xs) (y ∷ ys) = difference (bit_or seen (bit_xor x y)) xs ys

unfoldable pub tokens_equal : Bytes → Bytes → Bool
unfolding difference
tokens_equal a b = if length a == length b then difference 0 a b == 0 else false

abbrev non_empty : Bytes → Option Bytes
non_empty t = if is_empty t then none else some t

unfoldable pub bearer_from_authorization : Bytes → Option Bytes
unfolding trim strip_prefix
bearer_from_authorization header = elim (strip_prefix (text "Bearer ") (trim header)) [
  | some rest ↦ non_empty (trim rest)
  | none ↦ elim (strip_prefix (text "bearer ") (trim header)) [
    | some rest ↦ non_empty (trim rest)
    | none ↦ none
  ]
]

-- `str::lines`; the carriage return before a line feed is left, as the lines are trimmed.
abbrev pub lines : Bytes → Bytes → List Bytes
lines line [] = if is_empty line then [] else line ∷ []
lines line (b ∷ bs) = if b == 10 then line ∷ lines [] bs else lines (line ++ b ∷ []) bs

abbrev begins : ℕ → Bytes → Bool
begins c [] = false
begins c (b ∷ bs) = b == c

unfoldable pub token_line : List Bytes → Result Bytes
unfolding trim
token_line [] = err no_token
token_line (line ∷ ls) =
    let later = token_line ls in
    if not (is_empty (trim line)) && not (begins b'#' (trim line)) then ok (trim line) else later

-- `load_token_file`, with what reading the file gave.
unfoldable pub load_token_file : Result Bytes → Result Bytes
unfolding token_line
load_token_file (err e) = err e
load_token_file (ok raw) = token_line (lines [] raw)

abbrev file_token : (Bytes → Result Bytes) → Bytes → Result (Option Bytes)
file_token read_to_string path = elim (load_token_file (read_to_string path)) [
  | ok t ↦ ok (some t)
  | err e ↦ err e
]

abbrev token_from_file : (Bytes → Result Bytes) → Option Bytes → Result (Option Bytes)
token_from_file read_to_string none = ok none
token_from_file read_to_string (some path) =
    if is_empty (trim path) then ok none else file_token read_to_string (trim path)

-- The values of PROXYGIT_TOKEN and PROXYGIT_TOKEN_FILE.
unfoldable pub load_token_from_env :
    (Bytes → Result Bytes) → Option Bytes → Option Bytes → Result (Option Bytes)
unfolding trim load_token_file
load_token_from_env read_to_string none path = token_from_file read_to_string path
load_token_from_env read_to_string (some t) path =
    if is_empty (trim t) then token_from_file read_to_string path else ok (some (trim t))

abbrev pub alphabet : Bytes
alphabet = text "ABCDEFGHIJKLMNOPQRSTUVWXYZabcdefghijklmnopqrstuvwxyz0123456789-_"

-- The character for six bits of `n`, from bit `s` on.
abbrev pub sextet : ℕ → ℕ → ℕ
sextet n s = get_or alphabet (n / 2 ^ s % 64) 0

unfoldable pub base64_url_nopad : Bytes → Bytes
base64_url_nopad [] = []
base64_url_nopad (a ∷ []) = let n = a * 2 ^ 16 in sextet n 18 ∷ sextet n 12 ∷ []
base64_url_nopad (a ∷ b ∷ []) =
    let n = a * 2 ^ 16 + b * 2 ^ 8 in sextet n 18 ∷ sextet n 12 ∷ sextet n 6 ∷ []
base64_url_nopad (a ∷ b ∷ c ∷ rest) =
    let n = a * 2 ^ 16 + b * 2 ^ 8 + c in
    sextet n 18 ∷ sextet n 12 ∷ sextet n 6 ∷ sextet n 0 ∷ base64_url_nopad rest
