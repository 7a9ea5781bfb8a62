-- ===== src/Strings/Case.antt =====
-- Case conversion and the comparisons of string_utils.h.
use moban.Prelude.{
  ℕ, ◌+◌, ◌-◌, ◌≡◌, ◌↔◌, refl, ap, sym, ◌∙◌, inl, inr, Bool, Bool-cases, true, false, ◌&&◌, Bytes,
  [], ◌∷◌, ◌++◌, map, ◌==◌, ==_iff, leb, ltb, if◌then◌else◌, length, take, drop, arith,
  take-append-drop, take-append, drop-append, length-append, suc, length,
}

unfoldable pub to_lower_ascii : ℕ → ℕ
to_lower_ascii c = if leb b'A' c && leb c b'Z' then c - b'A' + b'a' else c

unfoldable pub to_upper_ascii : ℕ → ℕ
to_upper_ascii c = if leb b'a' c && leb c b'z' then c - b'a' + b'A' else c

unfoldable pub to_lower : Bytes → Bytes
to_lower = map to_lower_ascii

unfoldable pub to_upper : Bytes → Bytes
to_upper = map to_upper_ascii

-- The loop of `iequals`, which runs over both texts at once.
same_folded : Bytes → Bytes → Bool
same_folded [] r = true
same_folded (a ∷ l) [] = true
same_folded (a ∷ l) (b ∷ r) =
    let rest = same_folded l r in if to_lower_ascii a == to_lower_ascii b then rest else false

unfoldable pub iequals : Bytes → Bytes → Bool
unfolding same_folded
iequals lhs rhs = if length lhs == length rhs then same_folded lhs rhs else false

unfoldable pub istarts_with : Bytes → Bytes → Bool
istarts_with input prefix =
    if ltb (length input) (length prefix)
    then false
    else iequals (take (length prefix) input) prefix

unfoldable pub iends_with : Bytes → Bytes → Bool
iends_with input suffix =
    if ltb (length input) (length suffix)
    then false
    else iequals (drop (length input - length suffix) input) suffix

-- `compare(...) == 0` on two texts of one length.
unfoldable pub same_bytes : Bytes → Bytes → Bool
same_bytes [] [] = true
same_bytes [] (b ∷ r) = false
same_bytes (a ∷ l) [] = false
same_bytes (a ∷ l) (b ∷ r) = a == b && same_bytes l r

unfoldable pub starts_with : Bytes → Bytes → Bool
unfolding same_bytes
starts_with input prefix =
    if ltb (length input) (length prefix)
    then false
    else same_bytes (take (length prefix) input) prefix

unfoldable pub ends_with : Bytes → Bytes → Bool
unfolding same_bytes
ends_with input suffix =
    if ltb (length input) (length suffix)
    then false
    else same_bytes (drop (length input - length suffix) input) suffix

pub same_bytes_iff : (l r : Bytes) → (same_bytes l r ≡ true) ↔ (l ≡ r)
unfolding same_bytes
same_bytes_iff [] [] = (λ h. refl, λ h. refl)
same_bytes_iff [] (b ∷ r) = (λ h. cc, λ h. cc)
same_bytes_iff (a ∷ l) [] = (λ h. cc, λ h. cc)
same_bytes_iff (a ∷ l) (b ∷ r) =
    let ih = same_bytes_iff l r in (λ h. ground (arith, ih), λ h. ground (arith, ih))

same_folded_iff :
    (l r : Bytes) → length l ≡ length r → (same_folded l r ≡ true) ↔ (to_lower l ≡ to_lower r)
unfolding same_folded to_lower
same_folded_iff [] [] e = (λ h. refl, λ h. refl)
same_folded_iff [] (b ∷ r) e = absurd (omega arith)
same_folded_iff (a ∷ l) [] e = absurd (omega arith)
same_folded_iff (a ∷ l) (b ∷ r) e =
    let ih = same_folded_iff l r (omega arith) in (λ h. ground (arith, ih), λ h. ground (arith, ih))

length-to_lower : (s : Bytes) → length (to_lower s) ≡ length s
unfolding to_lower
length-to_lower [] = refl
length-to_lower (c ∷ s) = ap suc (length-to_lower s)

-- `iequals` holds exactly of the texts that fold to the same lower case.
pub iequals_iff : (l r : Bytes) → (iequals l r ≡ true) ↔ (to_lower l ≡ to_lower r)
unfolding iequals
iequals_iff l r = (
  λ h. elim (Bool-cases (length l == length r)) [
    | inl t ↦ (same_folded_iff l r (ground arith)).0 (rw t at h)
    | inr t ↦ ground arith
  ],
  λ h.
      let e : length l ≡ length r = sym (length-to_lower l) ∙ ap length h ∙ length-to_lower r in
      rw ((==_iff (length l) (length r)).1 e) ((same_folded_iff l r e).1 h),
)

-- `starts_with` holds exactly of the texts that are the prefix and something behind it.
pub starts_with_iff :
    (input prefix : Bytes)
    → (starts_with input prefix ≡ true) ↔ ((rest : Bytes) × (input ≡ prefix ++ rest))
unfolding starts_with
starts_with_iff input prefix = (
  λ h. elim (Bool-cases (ltb (length input) (length prefix))) [
    | inl t ↦ ground arith
    | inr t ↦
        let e = (same_bytes_iff (take (length prefix) input) prefix).0 (rw t at h) in
        (
          drop (length prefix) input,
          sym (take-append-drop (length prefix) input)
              ∙ ap (λ p. p ++ drop (length prefix) input) e,
        )
  ],
  λ (rest, e).
      let le = length-append prefix rest in
      let t : ltb (length input) (length prefix) ≡ false = ground (arith, ap length e) in
      rw (t, e)
        ((same_bytes_iff (take (length prefix) (prefix ++ rest)) prefix).1
          (take-append (length prefix) prefix rest refl)),
)

-- `ends_with` holds exactly of the texts that are something and the suffix behind it.
pub ends_with_iff :
    (input suffix : Bytes)
    → (ends_with input suffix ≡ true) ↔ ((start : Bytes) × (input ≡ start ++ suffix))
unfolding ends_with
ends_with_iff input suffix = (
  λ h. elim (Bool-cases (ltb (length input) (length suffix))) [
    | inl t ↦ ground arith
    | inr t ↦
        let k = length input - length suffix in
        let e = (same_bytes_iff (drop k input) suffix).0 (rw t at h) in
        (take k input, sym (take-append-drop k input) ∙ ap (λ p. take k input ++ p) e)
  ],
  λ (start, e).
      let le = length-append start suffix in
      let t : ltb (length input) (length suffix) ≡ false = ground (arith, ap length e) in
      let k : length input - length suffix ≡ length start = omega (arith, ap length e) in
      rw (t, k, e)
        ((same_bytes_iff (drop (length start) (start ++ suffix)) suffix).1
          (drop-append (length start) start suffix refl)),
)
