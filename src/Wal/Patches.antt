-- ===== src/Wal/Patches.antt =====
-- The patches that the flush of crates/proxygit-client/src/wal/mod.rs applies: what each byte of the
-- patched content is.
use proxygit.Prelude.{
  ℕ, zero, suc, ◌+◌, ◌-◌, ◌<◌, ◌≤◌, ◌≡◌, refl, sym, ap, ◌∙◌, inl, inr, Bool, true, false, ◌&&◌,
  List, [], ◌∷◌, ◌++◌, length, length-append, length-take, length-replicate, take, drop, replicate,
  get_elem?, ltb, leb, if◌then◌else◌, Option, none, some, arith, Bool-cases, Option-cases,
}
use proxygit.Bytes.{Bytes}
use proxygit.Wal.{WalRecord}
use proxygit.Wal.Diff.{apply_patch, apply_patches}

get-append :
    (i : ℕ) (xs ys : Bytes)
    → get_elem? (xs ++ ys) i
      ≡ (if ltb i (length xs) then get_elem? xs i else get_elem? ys (i - length xs))
get-append i [] ys = ground arith
get-append zero (x ∷ xs) ys = ground arith
get-append (suc i) (x ∷ xs) ys = get-append i xs ys ∙ ground arith

get-take : (i n : ℕ) (xs : Bytes) → i < n → get_elem? (take n xs) i ≡ get_elem? xs i
get-take i zero xs h = absurd (omega arith)
get-take i (suc n) [] h = refl
get-take zero (suc n) (x ∷ xs) h = refl
get-take (suc i) (suc n) (x ∷ xs) h = get-take i n xs (omega arith)

get-drop : (i n : ℕ) (xs : Bytes) → get_elem? (drop n xs) i ≡ get_elem? xs (n + i)
get-drop i zero xs = let e : i ≡ 0 + i = omega arith in ap (get_elem? xs) e
get-drop i (suc n) [] = refl
get-drop i (suc n) (x ∷ xs) =
    let e : suc (n + i) ≡ suc n + i = omega arith in get-drop i n xs ∙ ap (get_elem? (x ∷ xs)) e

abbrev zeros : ℕ → Bytes
zeros n = replicate n 0

length-zeros : (n : ℕ) → length (zeros n) ≡ n
length-zeros n = length-replicate n 0

get-replicate : (i n : ℕ) → i < n → get_elem? (zeros n) i ≡ some 0
get-replicate i zero h = absurd (omega arith)
get-replicate zero (suc n) h = refl
get-replicate (suc i) (suc n) h = get-replicate i n (omega arith)

get-none : (i : ℕ) (xs : Bytes) → length xs ≤ i → get_elem? xs i ≡ none
get-none i [] h = refl
get-none zero (x ∷ xs) h = absurd (omega arith)
get-none (suc i) (x ∷ xs) h = get-none i xs (omega arith)

same_bytes : (xs ys : Bytes) → ((i : ℕ) → get_elem? xs i ≡ get_elem? ys i) → xs ≡ ys
same_bytes [] [] h = refl
same_bytes [] (y ∷ ys) h = let e = h 0 in cc
same_bytes (x ∷ xs) [] h = let e = h 0 in cc
same_bytes (x ∷ xs) (y ∷ ys) h = let e = h 0 in let rest = same_bytes xs ys (λ i. h (suc i)) in cc

-- The end of a patch, and the place of a byte in it.
abbrev pub end_of : WalRecord → ℕ
end_of p = p.offset + length p.content

abbrev pub covers : WalRecord → ℕ → Bool
covers p i = leb p.offset i && ltb i (end_of p)

abbrev or_else : Option ℕ → Option ℕ → Option ℕ
or_else none o = o
or_else (some b) o = some b

abbrev pub zero_below : ℕ → ℕ → Option ℕ
zero_below end i = if ltb i end then some 0 else none

-- The byte of the content, or a zero up to the end.
abbrev pub padded : Bytes → ℕ → ℕ → Option ℕ
padded content end i = or_else (get_elem? content i) (zero_below end i)

get-some : (i : ℕ) (xs : Bytes) → i < length xs → (b : ℕ) × (get_elem? xs i ≡ some b)
get-some i [] h = absurd (omega arith)
get-some zero (x ∷ xs) h = (x, refl)
get-some (suc i) (x ∷ xs) h = get-some i xs (omega arith)

-- The content with the zeros that make room for a patch.
abbrev room_for : ℕ → Bytes → Bytes
room_for end content = content ++ zeros (end - length content)

length-room_for :
    (end : ℕ) (content : Bytes)
    → length (room_for end content) ≡ length content + (end - length content)
length-room_for end content = omega (
  arith,
  length-append content (zeros (end - length content)),
  length-zeros (end - length content),
)

get-room_for :
    (end i : ℕ) (content : Bytes) → get_elem? (room_for end content) i ≡ padded content end i
get-room_for end i content =
    get-append i content (zeros (end - length content))
    ∙ (elim (Bool-cases (ltb i (length content))) [
      | inl t ↦ let (b, e) = get-some i content (ground (arith, t)) in rw (t, e) refl
      | inr t ↦
          rw (t, get-none i content (ground (arith, t)))
            (elim (Bool-cases (ltb i end)) [
              | inl u ↦
                  rw u (
                    get-replicate (i - length content) (end - length content)
                      (ground (arith, t, u)))
              | inr u ↦ rw u (
                  get-none (i - length content) (zeros (end - length content))
                    (ground (arith, t, u, length-zeros (end - length content))))
            ])
    ])

get-apply_patch :
    (p : WalRecord) (content : Bytes) (i : ℕ)
    → get_elem? (apply_patch p content) i
      ≡ (if covers p i then get_elem? p.content (i - p.offset) else padded content (end_of p) i)
unfolding apply_patch
get-apply_patch p content i =
    let room = room_for (end_of p) content in
    let first : length (take p.offset room) ≡ p.offset =
      omega (arith, length-take p.offset room, length-room_for (end_of p) content) in
    get-append i (take p.offset room) (p.content ++ drop (end_of p) room)
    ∙ (elim (Bool-cases (ltb i p.offset)) [
      | inl t ↦
          let out : covers p i ≡ false = ground (arith, t) in
          rw (first, t, out)
            (get-take i p.offset room (ground (arith, t)) ∙ get-room_for (end_of p) i content)
      | inr t ↦
          rw (first, t)
            (get-append (i - p.offset) p.content (drop (end_of p) room)
              ∙ (elim (Bool-cases (ltb i (end_of p))) [
                | inl u ↦
                    let inside : covers p i ≡ true = ground (arith, t, u) in
                    let near : ltb (i - p.offset) (length p.content) ≡ true =
                      ground (arith, t, u) in
                    rw (inside, near) refl
                | inr u ↦
                    let out : covers p i ≡ false = ground (arith, t, u) in
                    let far : ltb (i - p.offset) (length p.content) ≡ false =
                      ground (arith, t, u) in
                    let there : end_of p + (i - p.offset - length p.content) ≡ i =
                      ground (arith, t, u) in
                    rw (out, far)
                      (get-drop (i - p.offset - length p.content) (end_of p) room
                        ∙ ap (get_elem? room) there
                        ∙ get-room_for (end_of p) i content)
              ]))
    ])

-- The last patch that covers the byte decides it; else it is the content's, or a zero up to the end
-- of the last of the patches.
abbrev pub written_byte : List WalRecord → ℕ → Option ℕ
written_byte [] i = none
written_byte (p ∷ ps) i =
    or_else (written_byte ps i) (if covers p i then get_elem? p.content (i - p.offset) else none)

abbrev pub last_end : List WalRecord → ℕ
last_end [] = 0
last_end (p ∷ ps) = if ltb (last_end ps) (end_of p) then end_of p else last_end ps

abbrev pub byte_at : List WalRecord → Bytes → ℕ → Option ℕ
byte_at ps content i = or_else (written_byte ps i) (padded content (last_end ps) i)

or_else_assoc : (a b c : Option ℕ) → or_else a (or_else b c) ≡ or_else (or_else a b) c
or_else_assoc none b c = refl
or_else_assoc (some x) b c = refl

-- Two ends with zeros up to them: the later one counts.
zero_below_max :
    (a e i : ℕ)
    → or_else (zero_below a i) (zero_below e i) ≡ zero_below (if ltb e a then a else e) i
zero_below_max a e i = ground arith

padded-apply_patch :
    (p : WalRecord) (content : Bytes) (e i : ℕ)
    → padded (apply_patch p content) e i
      ≡ or_else
          (if covers p i then get_elem? p.content (i - p.offset) else none)
          (padded content (if ltb e (end_of p) then end_of p else e) i)
padded-apply_patch p content e i =
    ap (λ o. or_else o (zero_below e i)) (get-apply_patch p content i)
    ∙ (elim (Bool-cases (covers p i)) [
      | inl c ↦
          let (b, found) = get-some (i - p.offset) p.content (ground (arith, c)) in
          rw (c, found) refl
      | inr c ↦ rw c (
          sym (or_else_assoc (get_elem? content i) (zero_below (end_of p) i) (zero_below e i))
          ∙ ap (or_else (get_elem? content i)) (zero_below_max (end_of p) e i))
    ])

no_end : (content : Bytes) (i : ℕ) → get_elem? content i ≡ padded content 0 i
no_end content i = elim (Option-cases (get_elem? content i)) [
  | inl n ↦ rw n (sym (nothing i))
  | inr (b, n) ↦ rw n refl
]
  where
    nothing : (i : ℕ) → zero_below 0 i ≡ none
    nothing i = ground arith

-- Each byte of a content under patches is the one that the last patch over it has, or else the
-- content's own, or zero in a gap.
pub apply_patches-byte_at :
    (ps : List WalRecord) (content : Bytes) (i : ℕ)
    → get_elem? (apply_patches ps content) i ≡ byte_at ps content i
unfolding apply_patches
apply_patches-byte_at [] content i = no_end content i
apply_patches-byte_at (p ∷ ps) content i =
    apply_patches-byte_at ps (apply_patch p content) i
    ∙ ap (or_else (written_byte ps i)) (padded-apply_patch p content (last_end ps) i)
    ∙ or_else_assoc (written_byte ps i) _ (padded content (last_end (p ∷ ps)) i)

-- Applying the same patches again to what they made changes nothing, so a flush that is tried again
-- after its answer was lost leaves the content that the first one wrote.
pub apply_patches_idempotent :
    (ps : List WalRecord) (content : Bytes)
    → apply_patches ps (apply_patches ps content) ≡ apply_patches ps content
apply_patches_idempotent ps content = same_bytes _ _ (λ i.
    apply_patches-byte_at ps (apply_patches ps content) i
    ∙ ap (λ o. or_else (written_byte ps i) (or_else o (zero_below (last_end ps) i)))
        (apply_patches-byte_at ps content i)
    ∙ again (written_byte ps i) (get_elem? content i) (zero_below (last_end ps) i)
    ∙ sym (apply_patches-byte_at ps content i))
  where
    again :
        (w g z : Option ℕ)
        → or_else w (or_else (or_else w (or_else g z)) z) ≡ or_else w (or_else g z)
    again (some b) g z = refl
    again none (some b) z = refl
    again none none (some b) = refl
    again none none none = refl
