-- ===== src/Paths/Safe.antt =====
-- A sanitised path cannot leave the project, and plain paths are kept.
use proxygit.Prelude.{
  ℕ, ◌≡◌, ◌≢◌, refl, ap, inl, inr, true, false, [], ◌∷◌, All, ◌==◌, none, arith, Bool-cases,
}
use proxygit.Bytes.{Bytes}
use proxygit.Bytes.Utf8.{utf8_from, lead}
use proxygit.Result.{ok, >>=-eq-ok, if_err-eq-ok, ok-injective}
use proxygit.Protocol.Payload.{utf8_or_fail, utf8_or_fail_valid}
use proxygit.Paths.{
  escaped, decode_escapes, percent_decode, trim_slashes, has_dotdot, sanitize_path,
}

abbrev pub IsRelative : Bytes → Type 0
IsRelative [] = Unit
IsRelative (b ∷ bs) = b ≢ b'/'

trim_slashes-IsRelative : (bs : Bytes) → IsRelative (trim_slashes bs)
unfolding trim_slashes
trim_slashes-IsRelative [] = tt
trim_slashes-IsRelative (b ∷ bs) = elim (Bool-cases (b == b'/')) [
  | inl e ↦ rw e (trim_slashes-IsRelative bs)
  | inr e ↦ rw e (ground (arith, e))
]

utf8_from-trim_slashes :
    (bs : Bytes) → utf8_from [] bs ≡ true → utf8_from [] (trim_slashes bs) ≡ true
unfolding trim_slashes
utf8_from-trim_slashes [] h = h
utf8_from-trim_slashes (b ∷ bs) h = elim (Bool-cases (b == b'/')) [
  | inl e ↦ rw e (utf8_from-trim_slashes bs (slash b bs e h))
  | inr e ↦ rw e h
]
  where
    slash :
        (b : ℕ) (bs : Bytes)
        → (b == b'/') ≡ true
        → utf8_from [] (b ∷ bs) ≡ true
        → utf8_from [] bs ≡ true
    slash b bs e h = let e' : b ≡ b'/' = ground (arith, e) in unfold utf8_from lead in (rw e' at h)

utf8_or_fail-eq-ok : (bs s : Bytes) → utf8_or_fail bs ≡ ok s → (s ≡ bs) × (utf8_from [] s ≡ true)
unfolding utf8_or_fail
utf8_or_fail-eq-ok bs s h = elim (Bool-cases (utf8_from [] bs)) [
  | inl e ↦
      let same : bs ≡ s = ok-injective (rw (e, utf8_or_fail) at h) in
      (ground (arith, same), rw (← same) e)
  | inr e ↦ cc (rw (e, utf8_or_fail) at h)
]

-- A path that `sanitize_path` returns has no `..`, does not begin with `/`, and is UTF-8, however
-- the raw path spelled its characters.
pub sanitize_path-safe :
    (raw p : Bytes)
    → sanitize_path raw ≡ ok p
    → (has_dotdot p ≡ false) × IsRelative p × (utf8_from [] p ≡ true)
unfolding sanitize_path
sanitize_path-safe raw p h =
    let (decoded, d, rest) = >>=-eq-ok (percent_decode raw) _ h in
    let (clean, same) = if_err-eq-ok _ _ _ rest in
    let same' : trim_slashes decoded ≡ p = ok-injective same in
    rw (← same') (
      clean,
      trim_slashes-IsRelative decoded,
      utf8_from-trim_slashes decoded
          (utf8_or_fail-eq-ok (decode_escapes raw) decoded (unfold percent_decode in d)).1,
    )

decode_escapes-plain : (bs : Bytes) → All (λ b. b ≢ b'%') bs → decode_escapes bs ≡ bs
unfolding decode_escapes
decode_escapes-plain [] a = refl
decode_escapes-plain (b ∷ []) a = refl
decode_escapes-plain (b ∷ h1 ∷ []) a = refl
decode_escapes-plain (b ∷ h1 ∷ h2 ∷ rest) (n, a) =
    let e : escaped b h1 h2 ≡ none = unfold escaped in ground arith in
    rw (e, decode_escapes) (ap (λ t. b ∷ t) (decode_escapes-plain (h1 ∷ h2 ∷ rest) a))

trim_slashes-relative : (bs : Bytes) → IsRelative bs → trim_slashes bs ≡ bs
unfolding trim_slashes
trim_slashes-relative [] h = refl
trim_slashes-relative (b ∷ bs) h = ground arith

-- A UTF-8 path with no `%`, no `..` and no leading `/` is returned as it is.
pub sanitize_path-plain :
    (p : Bytes)
    → utf8_from [] p ≡ true
    → All (λ b. b ≢ b'%') p
    → has_dotdot p ≡ false
    → IsRelative p
    → sanitize_path p ≡ ok p
unfolding sanitize_path percent_decode
sanitize_path-plain p valid plain clean rel =
    rw
      (decode_escapes-plain p plain, utf8_or_fail_valid p valid, trim_slashes-relative p rel, clean)
      refl
