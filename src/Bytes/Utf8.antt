-- ===== src/Bytes/Utf8.antt =====
-- Text as UTF-8 bytes: `String::from_utf8`, `String::from_utf8_lossy` and text literals.
use Prim.Native.Char.{code}
use Prim.Native.String.{String}
use proxygit.Prelude.{
  ℕ, Bool, true, false, ◌&&◌, Option, none, some, List, [], ◌∷◌, ◌++◌, ltb, leb, if◌then◌else◌, ◌≡◌,
  sym, ap, inl, inr, Option-cases, Bool-cases, ◌∙◌, append-nil, append_assoc, arith,
}
use proxygit.Bytes.{Bytes}

-- The bytes of an ASCII literal.
abbrev pub text : String → Bytes
text String.[] = []
text (String.◌∷◌ c s) = code c ∷ text s

unfoldable pub within : (ℕ × ℕ) → ℕ → Bool
within (lo, hi) b = leb lo b && leb b hi

abbrev pub tail : ℕ × ℕ
tail = (0x80, 0xbf)

-- The ranges of the bytes that must follow a lead byte; `none` for a byte that leads nothing.
unfoldable pub lead : ℕ → Option (List (ℕ × ℕ))
unfolding within
lead b =
    if ltb b 0x80
    then some []
    else if ltb b 0xc2
    then none
    else if ltb b 0xe0
    then some (tail ∷ [])
    else if within (0xe0, 0xe0) b
    then some ((0xa0, 0xbf) ∷ tail ∷ [])
    else if within (0xed, 0xed) b
    then some ((0x80, 0x9f) ∷ tail ∷ [])
    else if ltb b 0xf0
    then some (tail ∷ tail ∷ [])
    else if within (0xf0, 0xf0) b
    then some ((0x90, 0xbf) ∷ tail ∷ tail ∷ [])
    else if ltb b 0xf4
    then some (tail ∷ tail ∷ tail ∷ [])
    else if within (0xf4, 0xf4) b
    then some ((0x80, 0x8f) ∷ tail ∷ tail ∷ [])
    else none

-- Whether the bytes are UTF-8, where `due` are the ranges that the open character still wants.
unfoldable pub utf8_from : List (ℕ × ℕ) → Bytes → Bool
utf8_from [] [] = true
utf8_from (r ∷ due) [] = false
utf8_from [] (b ∷ bs) = elim (lead b) [ none ↦ false | some due ↦ utf8_from due bs ]
utf8_from (r ∷ due) (b ∷ bs) = within r b && utf8_from due bs

-- `String::from_utf8`: the same bytes, or nothing.
unfoldable pub from_utf8 : Bytes → Option Bytes
unfolding lead within utf8_from
from_utf8 bs = if utf8_from [] bs then some bs else none

-- U+FFFD.
abbrev pub replacement : Bytes
replacement = 0xef ∷ 0xbf ∷ 0xbd ∷ []

-- `String::from_utf8_lossy`: each maximal ill-formed part becomes one U+FFFD. `seen` holds the
-- bytes of the character that is open, which wants the ranges `due`.
unfoldable pub lossy_from : List (ℕ × ℕ) → Bytes → Bytes → Bytes
lossy_from [] seen [] = seen
lossy_from (r ∷ due) seen [] = replacement
lossy_from [] seen (b ∷ bs) = elim (lead b) [
  | none ↦ seen ++ replacement ++ lossy_from [] [] bs
  | some due ↦ seen ++ lossy_from due (b ∷ []) bs
]
lossy_from (r ∷ due) seen (b ∷ bs) = elim (within r b) [
  | true ↦ lossy_from due (seen ++ b ∷ []) bs
  | false ↦ elim (lead b) [
    | none ↦ replacement ++ replacement ++ lossy_from [] [] bs
    | some due' ↦ replacement ++ lossy_from due' (b ∷ []) bs
  ]
]

unfoldable pub from_utf8_lossy : Bytes → Bytes
unfolding lead within lossy_from
from_utf8_lossy bs = lossy_from [] [] bs

pub from_utf8-some : (bs s : Bytes) → from_utf8 bs ≡ some s → bs ≡ s
unfolding from_utf8
from_utf8-some bs s h = ground arith

lossy_from_valid :
    (due : List (ℕ × ℕ)) (seen bs : Bytes)
    → utf8_from due bs ≡ true
    → lossy_from due seen bs ≡ seen ++ bs
unfolding utf8_from lossy_from
lossy_from_valid [] seen [] h = sym (append-nil seen)
lossy_from_valid (r ∷ due) seen [] h = cc
lossy_from_valid [] seen (b ∷ bs) h = elim (Option-cases (lead b)) [
  | inl e ↦ ground (arith, e)
  | inr (due, e) ↦
      rw (e, lossy_from)
        (ap (λ t. seen ++ t) (lossy_from_valid due (b ∷ []) bs (rw (e, utf8_from) at h)))
]
lossy_from_valid (r ∷ due) seen (b ∷ bs) h = elim (Bool-cases (within r b)) [
  | inl e ↦
      rw (e, lossy_from)
        (lossy_from_valid due (seen ++ b ∷ []) bs (rw (e, utf8_from) at h)
          ∙ append_assoc seen (b ∷ []) bs)
  | inr e ↦ ground (arith, e)
]

-- Text that is UTF-8 already is left as it is.
pub from_utf8_lossy_valid : (bs : Bytes) → utf8_from [] bs ≡ true → from_utf8_lossy bs ≡ bs
unfolding from_utf8_lossy
from_utf8_lossy_valid bs h = lossy_from_valid [] [] bs h
