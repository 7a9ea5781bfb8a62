-- ===== src/Strings/Split/Laws.antt =====
-- `split` against `join`, and `replace_all` as a split and a join.
use moban.Strings.{ok}
use moban.Strings.Case.{same_bytes, same_bytes_iff}
use moban.Strings.Split.{
  find, split_loop, split, join_loop, join, replace_loop, replace_all, replace_first,
}
use native.Mathlib.Numerals.{add-one}
use moban.Prelude.{
  ℕ, zero, suc, ◌+◌, ◌≤◌, ◌<◌, ◌≡◌, ◌≢◌, ◌⊎◌, inl, inr, refl, ap, sym, ◌∙◌, Bool-cases, true, false,
  Bytes, none, some, List, [], ◌∷◌, ◌++◌, ◌==◌, length, take, drop, arith, append_assoc, append-nil,
  length-append, length-take, length-drop, take-append-drop, take-append,
}

-- The text stands nowhere in the input.
abbrev pub Lacks : Bytes → Bytes → Type 0
Lacks text s = (xs ys : Bytes) → s ≢ xs ++ (text ++ ys)

abbrev pub AllLack : Bytes → List Bytes → Type 0
AllLack text [] = Unit
AllLack text (s ∷ ss) = Lacks text s × AllLack text ss

pub record FoundAt (s text : Bytes) (n : ℕ) : Type 0 where
  pub splits : s ≡ take n s ++ (text ++ drop (n + length text) s)
  pub first : (xs ys : Bytes) → s ≡ xs ++ (text ++ ys) → n ≤ length xs

tail_eq : {a x : ℕ} {s t : Bytes} → a ∷ s ≡ x ∷ t → s ≡ t
tail_eq e = cc

hit :
    (s text : Bytes)
    → same_bytes (take (length text) s) text ≡ true
    → s ≡ text ++ drop (length text) s
hit s text h =
    sym (take-append-drop (length text) s)
    ∙ ap (λ t. t ++ drop (length text) s) ((same_bytes_iff _ text).0 h)

miss : (s text ys : Bytes) → same_bytes (take (length text) s) text ≡ false → s ≢ text ++ ys
miss s text ys h e =
    let t : same_bytes (take (length text) s) text ≡ true =
      (same_bytes_iff _ text).1
        (ap (take (length text)) e ∙ take-append (length text) text ys refl) in
    cc

empty_text : (text ys : Bytes) → [] ≡ text ++ ys → length text ≡ 0
empty_text [] ys e = refl
empty_text (c ∷ text) ys e = absurd (cc)

-- `find` gives the first position of the text, and fails only if it stands nowhere.
pub find_lem :
    (s text : Bytes)
    → ((find s text ≡ none) × Lacks text s) ⊎ ((n : ℕ) × (find s text ≡ some n) × FoundAt s text n)
unfolding find
find_lem [] text = elim (Bool-cases (length text == 0)) [
  | inl t ↦ inr (
    0,
    rw t refl,
    record { splits = nothing text (ground arith); first = λ xs ys e. omega arith },
  )
  | inr t ↦ inl (rw t refl, λ xs ys e. ground (arith, none_left xs text ys e))
]
  where
    nothing :
        (text : Bytes) → length text ≡ 0 → ◌≡◌ {A = Bytes} [] (text ++ drop (0 + length text) [])
    nothing [] e = refl
    nothing (c ∷ text) e = absurd (omega arith)

    none_left : (xs text ys : Bytes) → [] ≡ xs ++ (text ++ ys) → length text ≡ 0
    none_left [] text ys e = empty_text text ys e
    none_left (x ∷ xs) text ys e = absurd (cc)
find_lem (c ∷ s) text = elim (Bool-cases (same_bytes (take (length text) (c ∷ s)) text)) [
  | inl t ↦ inr (
    0,
    rw t refl,
    record {
      splits = let e : 0 + length text ≡ length text = omega arith in rw e (hit (c ∷ s) text t);
      first = λ xs ys e. omega arith;
    },
  )
  | inr t ↦ elim (find_lem s text) [
    | inl (e, lacks) ↦ inl (rw (t, e) refl, lacks_cons lacks t)
    | inr (n, e, f) ↦ inr (suc n, rw (t, e) (ap some (add-one n)), found_cons n f t)
  ]
]
  where
    lacks_cons :
        Lacks text s → same_bytes (take (length text) (c ∷ s)) text ≡ false → Lacks text (c ∷ s)
    lacks_cons l t [] ys e = miss (c ∷ s) text ys t e
    lacks_cons l t (x ∷ xs) ys e = l xs ys (tail_eq e)

    found_cons :
        (n : ℕ)
        → FoundAt s text n
        → same_bytes (take (length text) (c ∷ s)) text ≡ false
        → FoundAt (c ∷ s) text (suc n)
    found_cons n f t = record { splits = splits; first = first }
      where
        splits : c ∷ s ≡ take (suc n) (c ∷ s) ++ (text ++ drop (suc n + length text) (c ∷ s))
        splits =
            let e : suc n + length text ≡ suc (n + length text) = omega arith in
            rw e (ap (λ r. c ∷ r) f.splits)

        first : (xs ys : Bytes) → c ∷ s ≡ xs ++ (text ++ ys) → suc n ≤ length xs
        first [] ys e = absurd (miss (c ∷ s) text ys t e)
        first (x ∷ xs) ys e = let le = f.first xs ys (tail_eq e) in omega arith

-- What `join` appends behind the first part.
separated : Bytes → List Bytes → Bytes
separated d [] = []
separated d (p ∷ ps) = d ++ (p ++ separated d ps)

join_loop_lem : (ps : List Bytes) (d r : Bytes) → join_loop ps d false r ≡ r ++ separated d ps
unfolding join_loop separated
join_loop_lem [] d r = sym (append-nil r)
join_loop_lem (p ∷ ps) d r =
    join_loop_lem ps d ((r ++ d) ++ p)
    ∙ (append_assoc (r ++ d) p (separated d ps) ∙ append_assoc r d (p ++ separated d ps))

join-cons :
    (p q : Bytes) (ps : List Bytes) (d : Bytes) → join (p ∷ q ∷ ps) d ≡ p ++ (d ++ join (q ∷ ps) d)
unfolding join separated
join-cons p q ps d =
    join_loop_lem (q ∷ ps) d p ∙ ap (λ t. p ++ (d ++ t)) (sym (join_loop_lem ps d q))

join_one : (p d : Bytes) → join (p ∷ []) d ≡ p
unfolding join
join_one p d = refl

-- What the loops of `split` and of `replace_all` do with one input.
record Splits (fuel : ℕ) (input d : Bytes) : Type 0 where
  pub head : Bytes
  pub rest : List Bytes
  pub ran : (acc : List Bytes) → split_loop fuel input d acc ≡ some (acc ++ head ∷ rest)
  pub replaced : (to r : Bytes) → replace_loop fuel input d to r ≡ some (r ++ join (head ∷ rest) to)
  pub joined : join (head ∷ rest) d ≡ input
  pub clean : AllLack d (head ∷ rest)

-- The bytes before the first occurrence hold none.
before-Lacks :
    (s text : Bytes) (n : ℕ)
    → 0 < length text
    → FoundAt s text n
    → n ≤ length s
    → Lacks text (take n s)
before-Lacks s text n pos f within xs ys e =
    let back = drop n s in
    let whole : s ≡ xs ++ (text ++ (ys ++ back)) =
      sym (take-append-drop n s)
      ∙ ap (λ t. t ++ back) e
      ∙ append_assoc xs (text ++ ys) back
      ∙ ap (λ t. xs ++ t) (append_assoc text ys back) in
    let le = f.first xs (ys ++ back) whole in
    omega
      (arith, ap length e, length-append xs (text ++ ys), length-append text ys, length-take n s)

found-le :
    (s text : Bytes) (n : ℕ) → 0 < length text → FoundAt s text n → n + length text ≤ length s
found-le s text n pos f = omega (
  arith,
  ap length f.splits,
  length-append (take n s) (text ++ drop (n + length text) s),
  length-append text (drop (n + length text) s),
  length-take n s,
  length-drop (n + length text) s,
)

Splits-next :
    (fuel : ℕ) (input d : Bytes) (n : ℕ)
    → 0 < length d
    → find input d ≡ some n
    → FoundAt input d n
    → Splits fuel (drop (n + length d) input) d
    → Splits (suc fuel) input d
unfolding split_loop replace_loop
Splits-next fuel input d n pos e f next = record {
  head = take n input;
  rest = next.head ∷ next.rest;
  ran = λ acc.
      rw (e, split_loop)
        (next.ran (acc ++ take n input ∷ [])
          ∙ ap some (append_assoc acc (take n input ∷ []) (next.head ∷ next.rest)));
  replaced = λ to r.
      rw (e, replace_loop)
        (next.replaced to ((r ++ take n input) ++ to)
          ∙ ap some (
              append_assoc (r ++ take n input) to (join (next.head ∷ next.rest) to)
              ∙ append_assoc r (take n input) (to ++ join (next.head ∷ next.rest) to)
              ∙ ap (λ t. r ++ t) (sym (join-cons (take n input) next.head next.rest to))));
  joined =
      join-cons (take n input) next.head next.rest d
      ∙ ap (λ t. take n input ++ (d ++ t)) next.joined
      ∙ sym f.splits;
  clean =
      (before-Lacks input d n pos f (let le = found-le input d n pos f in omega arith), next.clean);
}

split_loop-Splits :
    (fuel : ℕ) (input d : Bytes) → 0 < length d → length input < fuel → Splits fuel input d
unfolding split_loop replace_loop
split_loop-Splits zero input d pos h = absurd (omega arith)
split_loop-Splits (suc fuel) input d pos h = elim (find_lem input d) [
  | inl (e, lacks) ↦ last e lacks
  | inr (n, e, f) ↦
      let le = found-le input d n pos f in
      Splits-next fuel input d n pos e f (
        split_loop-Splits fuel (drop (n + length d) input) d pos
          (omega (arith, length-drop (n + length d) input)))
]
  where
    last : find input d ≡ none → Lacks d input → Splits (suc fuel) input d
    last e lacks = record {
      head = input;
      rest = [];
      ran = λ acc. rw (e, split_loop) refl;
      replaced =
          λ to r. rw (e, replace_loop) (ap some (ap (λ t. r ++ t) (sym (join_one input to))));
      joined = join_one input d;
      clean = (lacks, tt);
    }

-- `split` comes to its end for every delimiter that is not empty. Its parts, joined by the
-- delimiter, are the input, and none of them holds the delimiter.
pub join-split :
    (input d : Bytes)
    → 0 < length d
    → (parts : List Bytes) × (split input d ≡ some (ok parts))
      × (join parts d ≡ input)
      × AllLack d parts
      × (parts ≢ [])
unfolding split
join-split input d pos =
    let s = split_loop-Splits (suc (length input)) input d pos (omega arith) in
    let t : (length d == 0) ≡ false = ground arith in
    (s.head ∷ s.rest, rw (t, s.ran []) refl, s.joined, s.clean, λ e. cc)

-- `replace_all` of a text that is not empty is the split at `from`, joined by `to`.
pub replace_all-eq-join-split :
    (input from to : Bytes)
    → 0 < length from
    → (parts : List Bytes) × (split input from ≡ some (ok parts))
      × (replace_all input from to ≡ some (ok (join parts to)))
unfolding split replace_all
replace_all-eq-join-split input from to pos =
    let s = split_loop-Splits (suc (length input)) input from pos (omega arith) in
    let t : (length from == 0) ≡ false = ground arith in
    (s.head ∷ s.rest, rw (t, s.ran []) refl, rw (t, s.replaced to []) refl)

-- `replace_first` of a text that is not empty changes its first occurrence and nothing else;
-- without one the input stays.
pub replace_first_lem :
    (input from to : Bytes)
    → 0 < length from
    → (Lacks from input × (replace_first input from to ≡ ok input))
      ⊎ ((xs ys : Bytes) × (input ≡ xs ++ (from ++ ys))
          × Lacks from xs
          × (replace_first input from to ≡ ok ((xs ++ to) ++ ys)))
unfolding replace_first
replace_first_lem input from to pos =
    let t : (length from == 0) ≡ false = ground arith in
    elim (find_lem input from) [
      | inl (e, lacks) ↦ inl (lacks, rw (t, e) refl)
      | inr (n, e, f) ↦
          let le = found-le input from n pos f in
          inr (
            take n input,
            drop (n + length from) input,
            f.splits,
            before-Lacks input from n pos f (omega arith),
            rw (t, e) refl,
          )
    ]
