-- ===== src/Buffer/Cuts.antt =====
-- A text as the lines that end in it and the rest behind them, as readers over `findCRLF` take it apart.
use moban.Prelude.{
  ℕ, suc, ◌≤◌, ◌≡◌, ◌≢◌, refl, ap, sym, ◌∙◌, Bytes, List, [], ◌∷◌, ◌++◌, arith, length, take, drop,
  length-append, length-take, length-drop, drop-append_le, take-append_le, append_assoc, ltb,
  Bool-cases, inl, inr, subst,
}
use moban.Buffer.Lines.{crlf, Found}

-- The lines of a text, each up to the first "\r\n" behind the line before, and a rest without one.
pub data Cut : Bytes → List Bytes → Bytes → Type 0 where
  rest : {s : Bytes} → ((xs ys : Bytes) → s ≢ xs ++ (crlf ++ ys)) → Cut s [] s
  line :
      {s r : Bytes} {ls : List Bytes} (n : ℕ)
      → Found s n
      → Cut (drop (suc (suc n)) s) ls r
      → Cut s (take n s ∷ ls) r

-- The line end stands inside the text.
pub Found-inside : {s : Bytes} {n : ℕ} → Found s n → suc (suc n) ≤ length s
Found-inside {s} {n} f =
    let e = ap length f.splits in
    omega (
      arith,
      e,
      length-append (take n s) (crlf ++ drop (suc (suc n)) s),
      length-take n s,
      length-drop (suc (suc n)) s,
    )

-- A beginning of two texts in a row that is no longer than the first is its beginning.
beginning : (s t p ys : Bytes) → s ++ t ≡ p ++ ys → length p ≤ length s → s ≡ p ++ drop (length p) s
beginning s t [] ys e h = refl
beginning [] t (x ∷ p) ys e h = absurd (omega arith)
beginning (a ∷ s) t (x ∷ p) ys e h =
    let h' = beginning s t p ys (cc) (omega arith) in
    let q : a ≡ x = cc in rw q (ap (λ r. x ∷ r) h')

Found-append : {s : Bytes} {n : ℕ} (t : Bytes) → Found s n → Found (s ++ t) n
Found-append {s} {n} t f = record { splits = splits; first = first }
  where
    inside : suc (suc n) ≤ length s
    inside = Found-inside f

    splits : s ++ t ≡ take n (s ++ t) ++ (crlf ++ drop (suc (suc n)) (s ++ t))
    splits =
        rw (take-append_le n s t (omega (arith, inside)), drop-append_le (suc (suc n)) s t inside)
          (ap (λ r. r ++ t) f.splits ∙ append_assoc (take n s) (crlf ++ drop (suc (suc n)) s) t)

    first : (xs ys : Bytes) → s ++ t ≡ xs ++ (crlf ++ ys) → n ≤ length xs
    first xs ys e = elim (Bool-cases (ltb (length s) (suc (suc (length xs))))) [
      | inl late ↦ ground (arith, inside)
      | inr early ↦
          let l : length (xs ++ crlf) ≡ suc (suc (length xs)) =
            omega (arith, length-append xs crlf) in
          let b =
            beginning s t (xs ++ crlf) ys (e ∙ sym (append_assoc xs crlf ys))
              (rw l (ground arith)) in
          f.first xs (drop (length (xs ++ crlf)) s)
            (b ∙ append_assoc xs crlf (drop (length (xs ++ crlf)) s))
    ]

line_on :
    {s q : Bytes} {ls : List Bytes} (n : ℕ) (t : Bytes)
    → Found s n
    → Cut (drop (suc (suc n)) s ++ t) ls q
    → Cut (s ++ t) (take n s ∷ ls) q
line_on {s} {q} {ls} n t f c =
    let inside = Found-inside f in
    let behind : Cut (drop (suc (suc n)) (s ++ t)) ls q =
      rw (drop-append_le (suc (suc n)) s t inside) c in
    let e = take-append_le n s t (omega (arith, inside)) in
    subst (λ l. Cut (s ++ t) (l ∷ ls) q) e (line n (Found-append t f) behind)

-- More text goes on with the rest.
pub Cut-append :
    {s r q : Bytes} {ls ms : List Bytes} (t : Bytes)
    → Cut s ls r
    → Cut (r ++ t) ms q
    → Cut (s ++ t) (ls ++ ms) q
Cut-append t (rest lacks) d = d
Cut-append t (line n f c) d = line_on n t f (Cut-append t c d)

-- No line ends in the rest.
pub Cut-rest :
    {s r : Bytes} {ls : List Bytes} → Cut s ls r → (xs ys : Bytes) → r ≢ xs ++ (crlf ++ ys)
Cut-rest (rest lacks) = lacks
Cut-rest (line n f c) = Cut-rest c
