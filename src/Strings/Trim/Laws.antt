-- ===== src/Strings/Trim/Laws.antt =====
-- What trimming keeps and what it cuts off.
use native.Mathlib.Decide.{dec_lt}
use native.Mathlib.Numerals.{add-one}
use moban.Prelude.{
  ℕ, zero, suc, ◌+◌, ◌-◌, ◌≤◌, ◌<◌, ◌≡◌, refl, ap, sym, ◌∙◌, Bool-cases, true, false, inl, inr,
  Bytes, [], ◌∷◌, ◌++◌, length, take, drop, get_or, arith, take-append-drop, length-drop,
  length-take,
}
use moban.Strings.Trim.{is_ascii_whitespace, leading, trailing, ltrim, rtrim, trim}

abbrev pub IsBlank : Bytes → Type 0
IsBlank s = (i : ℕ) → i < length s → is_ascii_whitespace (get_or s i 0) ≡ true

-- The text neither begins nor ends with a blank.
pub record IsTight (s : Bytes) : Type 0 where
  pub first : 0 < length s → is_ascii_whitespace (get_or s 0 0) ≡ false
  pub last : 0 < length s → is_ascii_whitespace (get_or s (length s - 1) 0) ≡ false

-- What a text is cut into: blanks, a tight middle, blanks.
pub record Trimmed (s t : Bytes) : Type 0 where
  pub before : Bytes
  pub after : Bytes
  pub whole : s ≡ before ++ (t ++ after)
  pub before_blank : IsBlank before
  pub after_blank : IsBlank after
  pub tight : IsTight t

get_or-drop : (k : ℕ) (s : Bytes) (i : ℕ) → get_or (drop k s) i 0 ≡ get_or s (k + i) 0
get_or-drop zero s i = ap (λ j. get_or s j 0) (omega arith)
get_or-drop (suc k) [] i = refl
get_or-drop (suc k) (c ∷ s) i =
    let e : suc k + i ≡ suc (k + i) = omega arith in rw e (get_or-drop k s i)

get_or-take : (k : ℕ) (s : Bytes) (i : ℕ) → i < k → get_or (take k s) i 0 ≡ get_or s i 0
get_or-take zero s i h = absurd (omega arith)
get_or-take (suc k) [] i h = refl
get_or-take (suc k) (c ∷ s) zero h = refl
get_or-take (suc k) (c ∷ s) (suc i) h = get_or-take k s i (omega arith)

IsBlank-cons : (c : ℕ) (s : Bytes) → is_ascii_whitespace c ≡ true → IsBlank s → IsBlank (c ∷ s)
IsBlank-cons c s b h zero lt = b
IsBlank-cons c s b h (suc i) lt = h i (omega arith)

record Leads (s : Bytes) (n : ℕ) : Type 0 where
  blank : IsBlank (take n s)
  within : n ≤ length s
  stop : n < length s → is_ascii_whitespace (get_or s n 0) ≡ false

leading-Leads : (s : Bytes) → Leads s (leading s)
unfolding leading
leading-Leads [] = record {
  blank = λ i h. absurd (omega arith);
  within = omega arith;
  stop = λ h. absurd (omega arith);
}
leading-Leads (c ∷ s) = elim (Bool-cases (is_ascii_whitespace c)) [
  | inl b ↦
      let l = leading-Leads s in
      rw (b, add-one)
        (record {
          blank = IsBlank-cons c (take (leading s) s) b l.blank;
          within = omega (arith, l.within);
          stop = λ h. l.stop (omega arith);
        })
  | inr b ↦
      rw b (record { blank = λ i h. absurd (omega arith); within = omega arith; stop = λ h. b })
]

record Trails (s : Bytes) (n k : ℕ) : Type 0 where
  blank : (i : ℕ) → k ≤ i → i < n → is_ascii_whitespace (get_or s i 0) ≡ true
  within : k ≤ n
  stop : 0 < k → is_ascii_whitespace (get_or s (k - 1) 0) ≡ false

trailing-Trails : (s : Bytes) (n : ℕ) → Trails s n (trailing s 0 n)
unfolding trailing
trailing-Trails s zero = record {
  blank = λ i h k. absurd (omega arith);
  within = omega arith;
  stop = λ h. absurd (omega arith);
}
trailing-Trails s (suc n) =
    let e : 0 + n ≡ n = omega arith in
    elim (Bool-cases (is_ascii_whitespace (get_or s n 0))) [
      | inl b ↦
          let l = trailing-Trails s n in
          rw (e, b)
            (record {
              blank = λ i h k. elim (dec_lt i n) [
                | yes p ↦ l.blank i h p
                | no p ↦ let ei : i ≡ n = omega arith in rw ei b
              ];
              within = omega (arith, l.within);
              stop = l.stop;
            })
      | inr b ↦
          let en : suc n - 1 ≡ n = omega arith in
          rw (e, b)
            (record {
              blank = λ i h k. absurd (omega arith);
              within = omega arith;
              stop = λ h. rw en b;
            })
    ]

trailing-shift : (s : Bytes) (b n : ℕ) → trailing s b n ≡ trailing (drop b s) 0 n
unfolding trailing
trailing-shift s b zero = refl
trailing-shift s b (suc n) =
    let e : 0 + n ≡ n = omega arith in rw (trailing-shift s b n, e, get_or-drop b s n) refl

-- One pass from both ends is the two passes after one another.
pub trim-eq-rtrim-ltrim : (s : Bytes) → trim s ≡ rtrim (ltrim s)
unfolding trim rtrim ltrim
trim-eq-rtrim-ltrim s =
    let b = leading s in rw (trailing-shift s b (length s - b), length-drop b s) refl

rtrim_parts : (s : Bytes) → (k : ℕ) × Trails s (length s) k × (rtrim s ≡ take k s)
unfolding rtrim
rtrim_parts s = (trailing s 0 (length s), trailing-Trails s (length s), refl)

ltrim_parts : (s : Bytes) → (b : ℕ) × Leads s b × (ltrim s ≡ drop b s)
unfolding ltrim
ltrim_parts s = (leading s, leading-Leads s, refl)

-- `trim` cuts off blanks only, and all of them: what it returns stands in the text between blanks,
-- and neither begins nor ends with one.
pub trim-Trimmed : (s : Bytes) → Trimmed s (trim s)
trim-Trimmed s =
    let (b, l, el) = ltrim_parts s in
    let u = drop b s in
    let (k, r, er) = rtrim_parts u in
    let lu = length-drop b s in
    let lt : length (take k u) ≡ k = omega (arith, length-take k u, r.within) in
    rw (trim-eq-rtrim-ltrim s, el, er)
      (record {
        before = take b s;
        after = drop k u;
        whole = sym (ap (λ t. take b s ++ t) (take-append-drop k u) ∙ take-append-drop b s);
        before_blank = l.blank;
        after_blank = λ i h.
            rw (get_or-drop k u i) (r.blank (k + i) (omega arith) (omega (arith, length-drop k u)));
        tight = record {
          first = λ h.
              rw (get_or-take k u 0 (omega arith), get_or-drop b s 0)
                (rw (let e : b + 0 ≡ b = omega arith in e) (l.stop (omega (arith, r.within))));
          last = λ h. rw (lt, get_or-take k u (k - 1) (omega arith)) (r.stop (omega arith));
        };
      })
