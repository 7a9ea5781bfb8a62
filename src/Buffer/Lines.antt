-- ===== src/Buffer/Lines.antt =====
-- `findCRLF`: the line that stands at the front of the buffer.
use moban.Prelude.{
  ℕ, suc, ◌+◌, ◌≤◌, ◌<◌, ◌≡◌, ◌≢◌, refl, ap, Bool, Bool-cases, true, false, ◌&&◌, ◌⊎◌, inl, inr,
  none, some, Bytes, [], ◌∷◌, ◌++◌, arith, length, take, drop, get_or, ◌==◌, sub_size,
}
use native.Mathlib.Numerals.{add-one}
use moban.Buffer.{Buffer, search_crlf, find_crlf, retrieve_until}
use moban.Buffer.Layout.{IsValid, contents, sizes}
use moban.Buffer.Contents.{retrieve_lem}

-- Both bytes of a line's end, at the front.
abbrev pub crlf : Bytes
crlf = 13 ∷ 10 ∷ []

-- What `search_crlf` finds: the first position at which "\r\n" stands.
pub record Found (s : Bytes) (n : ℕ) : Type 0 where
  pub splits : s ≡ take n s ++ (crlf ++ drop (suc (suc n)) s)
  pub first : (xs ys : Bytes) → s ≡ xs ++ (crlf ++ ys) → n ≤ length xs

search_crlf-le : (s : Bytes) → search_crlf s ≤ length s
unfolding search_crlf
search_crlf-le [] = omega arith
search_crlf-le (a ∷ s) = ground (arith, search_crlf-le s)

abbrev at_crlf : ℕ → Bytes → Bool
at_crlf a s = a == 13 && get_or s 0 0 == 10

at_crlf-hit : (a : ℕ) (s : Bytes) → at_crlf a s ≡ true → a ∷ s ≡ crlf ++ drop 1 s
at_crlf-hit a [] h = ground arith
at_crlf-hit a (b ∷ s) h = ground arith

at_crlf-miss : (a : ℕ) (s ys : Bytes) → at_crlf a s ≡ false → a ∷ s ≢ crlf ++ ys
at_crlf-miss a [] ys h e = cc
at_crlf-miss a (b ∷ s) ys h e = ground arith

tail_eq : {a x : ℕ} {s t : Bytes} → a ∷ s ≡ x ∷ t → s ≡ t
tail_eq e = cc

-- No "\r\n" stands in the text.
search_none : (s xs ys : Bytes) → search_crlf s ≡ length s → s ≢ xs ++ (crlf ++ ys)
unfolding search_crlf
search_none [] [] ys h e = cc
search_none [] (x ∷ xs) ys h e = cc
search_none (a ∷ s) [] ys h e = elim (Bool-cases (at_crlf a s)) [
  | inl t ↦ ground arith
  | inr t ↦ at_crlf-miss a s ys t e
]
search_none (a ∷ s) (x ∷ xs) ys h e = elim (Bool-cases (at_crlf a s)) [
  | inl t ↦ ground arith
  | inr t ↦ search_none s xs ys (ground arith) (tail_eq e)
]

Found-cons : (a : ℕ) (s : Bytes) (n : ℕ) → at_crlf a s ≡ false → Found s n → Found (a ∷ s) (suc n)
Found-cons a s n t f = record { splits = ap (λ r. a ∷ r) f.splits; first = first }
  where
    first : (xs ys : Bytes) → a ∷ s ≡ xs ++ (crlf ++ ys) → suc n ≤ length xs
    first [] ys e = absurd (at_crlf-miss a s ys t e)
    first (x ∷ xs) ys e = let le = f.first xs ys (tail_eq e) in omega arith

search_some : (s : Bytes) → search_crlf s < length s → Found s (search_crlf s)
unfolding search_crlf
search_some [] h = absurd (omega arith)
search_some (a ∷ s) h = elim (Bool-cases (at_crlf a s)) [
  | inl t ↦ rw t (record { splits = at_crlf-hit a s t; first = λ xs ys e. omega arith })
  | inr t ↦
      let f = search_some s (ground arith) in rw (t, add-one) (Found-cons a s (search_crlf s) t f)
]

-- What `findCRLF` says of the readable bytes: the null pointer if no line ends among them, else the
-- first line's end.
pub find_crlf_lem :
    (b : Buffer)
    → IsValid b
    → ((find_crlf b ≡ none) × ((xs ys : Bytes) → contents b ≢ xs ++ (crlf ++ ys)))
      ⊎ ((n : ℕ) × (find_crlf b ≡ some (b.reader_index + n)) × Found (contents b) n)
unfolding find_crlf
find_crlf_lem b v =
    let (er, ew, lc) = sizes v in
    let n = search_crlf (contents b) in
    let le = search_crlf-le (contents b) in
    elim (Bool-cases (b.reader_index + n == b.write_index)) [
      | inl t ↦ inl (rw t refl, λ xs ys. search_none (contents b) xs ys (ground arith))
      | inr t ↦ inr (n, rw t refl, search_some (contents b) (ground arith))
    ]

-- `retrieveUntil` the `k`-th readable byte.
pub retrieve_until_lem :
    (b : Buffer) (k : ℕ)
    → IsValid b
    → k ≤ length (contents b)
    → IsValid (retrieve_until b (b.reader_index + k))
      × (contents (retrieve_until b (b.reader_index + k)) ≡ drop k (contents b))
unfolding retrieve_until
retrieve_until_lem b k v h =
    let (er, ew, lc) = sizes v in
    let e : sub_size (b.reader_index + k) b.reader_index ≡ k = omega arith in
    rw e (retrieve_lem b k v (omega arith))
