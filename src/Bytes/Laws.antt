-- ===== src/Bytes/Laws.antt =====
-- The laws of the fixed-width integers and of equality on byte strings.
use mathlib.Core.List.{reverse, reverse_aux, reverse-reverse}
use native.Mathlib.Nat.{pow-suc}
use proxygit.Prelude.{
  ℕ, zero, suc, ◌+◌, ◌*◌, ◌/◌, ◌%◌, ◌^◌, ◌<◌, ◌≡◌, subst, ◌≢◌, ◌↔◌, refl, ap, ◌∙◌, true, false, [],
  ◌∷◌, arith, length, take, drop, All, Bool-cases, inl, inr,
}
use proxygit.Bytes.{Bytes, IsByte, le_bytes, from_le, be_bytes, from_be, bytes_eq}

pub length-le_bytes : (w n : ℕ) → length (le_bytes w n) ≡ w
unfolding le_bytes
length-le_bytes zero n = refl
length-le_bytes (suc w) n = ap suc (length-le_bytes w (n / 256))

pub from_le-le_bytes : (w n : ℕ) → n < 256 ^ w → from_le (le_bytes w n) ≡ n
unfolding le_bytes from_le
from_le-le_bytes zero n h = omega arith
from_le-le_bytes (suc w) n h =
    omega (arith, from_le-le_bytes w (n / 256) (omega (arith, pow-suc 256 w)))

pub le_bytes-from_le : (bs : Bytes) → All IsByte bs → le_bytes (length bs) (from_le bs) ≡ bs
unfolding le_bytes from_le
le_bytes-from_le [] h = refl
le_bytes-from_le (b ∷ bs) (hb, hbs) =
    let low : (b + 256 * from_le bs) % 256 ≡ b = omega arith in
    let high : (b + 256 * from_le bs) / 256 ≡ from_le bs = omega arith in
    rw (low, high) (ap (λ t. b ∷ t) (le_bytes-from_le bs hbs))

pub from_le-lt : (bs : Bytes) → All IsByte bs → from_le bs < 256 ^ length bs
unfolding from_le
from_le-lt [] h = omega arith
from_le-lt (b ∷ bs) (hb, hbs) = omega (arith, from_le-lt bs hbs, pow-suc 256 (length bs))

length-reverse_aux : (xs ys : Bytes) → length (reverse_aux xs ys) ≡ length xs + length ys
length-reverse_aux [] ys = omega arith
length-reverse_aux (x ∷ xs) ys = omega (arith, length-reverse_aux xs (x ∷ ys))

pub length-reverse : (xs : Bytes) → length (reverse xs) ≡ length xs
length-reverse xs = omega (arith, length-reverse_aux xs [])

All-reverse_aux : (xs ys : Bytes) → All IsByte xs → All IsByte ys → All IsByte (reverse_aux xs ys)
All-reverse_aux [] ys hx hy = hy
All-reverse_aux (x ∷ xs) ys (hx, hxs) hy = All-reverse_aux xs (x ∷ ys) hxs (hx, hy)

pub length-be_bytes : (w n : ℕ) → length (be_bytes w n) ≡ w
unfolding be_bytes
length-be_bytes w n = length-reverse (le_bytes w n) ∙ length-le_bytes w n

pub from_be-be_bytes : (w n : ℕ) → n < 256 ^ w → from_be (be_bytes w n) ≡ n
unfolding be_bytes from_be
from_be-be_bytes w n h = rw (reverse-reverse (le_bytes w n)) (from_le-le_bytes w n h)

pub be_bytes-from_be : (bs : Bytes) → All IsByte bs → be_bytes (length bs) (from_be bs) ≡ bs
unfolding be_bytes from_be
be_bytes-from_be bs h =
    rw (← length-reverse bs)
      (rw (le_bytes-from_le (reverse bs) (All-reverse_aux bs [] h tt)) (reverse-reverse bs))

pub bytes_eq→eq : (xs ys : Bytes) → bytes_eq xs ys ≡ true → xs ≡ ys
unfolding bytes_eq
bytes_eq→eq [] [] h = refl
bytes_eq→eq [] (y ∷ ys) h = cc
bytes_eq→eq (x ∷ xs) [] h = cc
bytes_eq→eq (x ∷ xs) (y ∷ ys) h = ground (arith, bytes_eq→eq xs ys)

pub bytes_eq_refl : (xs : Bytes) → bytes_eq xs xs ≡ true
unfolding bytes_eq
bytes_eq_refl [] = refl
bytes_eq_refl (x ∷ xs) = ground (arith, bytes_eq_refl xs)

pub bytes_eq_iff : (xs ys : Bytes) → (bytes_eq xs ys ≡ true) ↔ (xs ≡ ys)
bytes_eq_iff xs ys =
    (bytes_eq→eq xs ys, λ e. subst (λ z. bytes_eq xs z ≡ true) e (bytes_eq_refl xs))

pub bytes_eq_ne : (xs ys : Bytes) → xs ≢ ys → bytes_eq xs ys ≡ false
bytes_eq_ne xs ys h = elim (Bool-cases (bytes_eq xs ys)) [
  | inl e ↦ absurd (h (bytes_eq→eq xs ys e))
  | inr e ↦ e
]

pub All-take : (n : ℕ) (bs : Bytes) → All IsByte bs → All IsByte (take n bs)
All-take zero bs h = tt
All-take (suc n) [] h = tt
All-take (suc n) (b ∷ bs) (hb, hbs) = (hb, All-take n bs hbs)

pub All-drop : (n : ℕ) (bs : Bytes) → All IsByte bs → All IsByte (drop n bs)
All-drop zero bs h = h
All-drop (suc n) [] h = tt
All-drop (suc n) (b ∷ bs) (hb, hbs) = All-drop n bs hbs
