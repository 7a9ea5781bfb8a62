-- ===== src/Strings/Split.antt =====
-- `split`, `join`, `replace_all` and `replace_first` of string_utils. A search from `start` is a
-- search in the text behind it. A loop takes fuel; a search that finds something consumes a byte.
pub mod Laws
use moban.Strings.{Error, invalid_argument, Result, ok, throws}
use moban.Strings.Case.{same_bytes}
use moban.Prelude.{
  ℕ, zero, suc, ◌+◌, Bool, true, false, ◌&&◌, Bytes, Option, none, some, List, [], ◌∷◌, ◌++◌, ◌==◌,
  leb, if◌then◌else◌, length, take, drop, codes,
}

-- Where the text stands first, from the front of the input.
unfoldable pub find : Bytes → Bytes → Option ℕ
find [] text = if length text == 0 then some 0 else none
find (c ∷ s) text =
    let rest = find s text in
    if same_bytes (take (length text) (c ∷ s)) text
    then some 0
    else elim rest [ none ↦ none | some n ↦ some (n + 1) ]

split_loop : ℕ → Bytes → Bytes → List Bytes → Option (List Bytes)
split_loop zero input delimiter parts = none
split_loop (suc fuel) input delimiter parts = elim (find input delimiter) [
  | none ↦ some (parts ++ input ∷ [])
  | some position ↦
      split_loop fuel (drop (position + length delimiter) input) delimiter
        (parts ++ take position input ∷ [])
]

-- `none` would be a loop that has not come to its end.
unfoldable pub split : Bytes → Bytes → Option (Result (List Bytes))
unfolding split_loop
split input delimiter =
    if length delimiter == 0
    then some (throws (invalid_argument (codes "split: delimiter must not be empty")))
    else (elim (split_loop (suc (length input)) input delimiter []) [
      | none ↦ none
      | some parts ↦ some (ok parts)
    ])

-- The second loop of `join`; the first one only adds up the length to reserve.
join_loop : List Bytes → Bytes → Bool → Bytes → Bytes
join_loop [] delimiter first result = result
join_loop (p ∷ ps) delimiter first result =
    join_loop ps delimiter false ((if first then result else result ++ delimiter) ++ p)

unfoldable pub join : List Bytes → Bytes → Bytes
unfolding join_loop
join parts delimiter = join_loop parts delimiter true []

replace_loop : ℕ → Bytes → Bytes → Bytes → Bytes → Option Bytes
replace_loop zero input from to result = none
replace_loop (suc fuel) input from to result = elim (find input from) [
  | none ↦ some (result ++ input)
  | some position ↦
      replace_loop fuel (drop (position + length from) input) from to
        ((result ++ take position input) ++ to)
]

unfoldable pub replace_all : Bytes → Bytes → Bytes → Option (Result Bytes)
unfolding replace_loop
replace_all input from to =
    if length from == 0
    then some (throws (invalid_argument (codes "replace_all: 'from' must not be empty")))
    else (elim (replace_loop (suc (length input)) input from to []) [
      | none ↦ none
      | some result ↦ some (ok result)
    ])

unfoldable pub replace_first : Bytes → Bytes → Bytes → Result Bytes
replace_first input from to =
    if length from == 0
    then throws (invalid_argument (codes "replace_first: 'from' must not be empty"))
    else (elim (find input from) [
      | none ↦ ok input
      | some position ↦ ok ((take position input ++ to) ++ drop (position + length from) input)
    ])
