-- ===== src/Sysutils/Lines.antt =====
-- Sysutils.antt: `readline` finds the line wherever it is cut, and miscounts it there.
use moban.Prelude.{
  ℕ, suc, ◌+◌, ◌-◌, ◌≤◌, ◌<◌, ◌≡◌, refl, sym, ap, ◌∙◌, true, false, Option-cases, inl, inr, none,
  some, [], ◌∷◌, ◌++◌, Bytes, leb, length, take, drop, arith, length-take, take-append_ge,
  drop-append_ge, take-append_le, drop-append_le, take-append-drop, take-all, append_assoc,
  drop-all,
}
use moban.Sysutils.{arrived, signal, broken, Socket, put_back, find_newline, returned, readline}
use moban.Sysutils.Reading.{bytes_of, is_sound, put_back-bytes_of}

find_newline-append :
    (p r : Bytes) (j : ℕ)
    → find_newline p ≡ some j
    → (find_newline (p ++ r) ≡ some j) × (j < length p)
unfolding find_newline
find_newline-append [] r j h = absurd (ground arith)
find_newline-append (b ∷ p) r j h = elim (Option-cases (find_newline p)) [
  | inl absent ↦ ground (arith, absent)
  | inr (k, found) ↦ ground (arith, found, find_newline-append p r k)
]

find_newline-skip :
    (p r : Bytes) (i : ℕ)
    → find_newline p ≡ none
    → find_newline (p ++ r) ≡ some i
    → (k : ℕ) × (i ≡ length p + k) × (find_newline r ≡ some k)
unfolding find_newline
find_newline-skip [] r i h k = (i, omega arith, k)
find_newline-skip (b ∷ p) r i h k =
    let none_in : find_newline p ≡ none = ground arith in
    elim (Option-cases (find_newline (p ++ r))) [
      | inl absent ↦ absurd (ground (arith, absent))
      | inr (j, found) ↦
          let rest = find_newline-skip p r j none_in found in
          (rest.0, ground (arith, found, rest.1), rest.2)
    ]

-- A piece with no newline in it is taken over whole.
readline-next :
    (nleft : ℕ) (buffer : Bytes) (b : ℕ) (bs : Bytes) (s : Socket)
    → find_newline (take nleft (b ∷ bs)) ≡ none
    → leb nleft (length (take nleft (b ∷ bs))) ≡ false
    → readline nleft buffer (arrived b bs ∷ s)
      ≡ readline (nleft - length (take nleft (b ∷ bs))) (buffer ++ b ∷ bs) s
unfolding readline
readline-next nleft buffer b bs s absent room = rw absent (rw room refl)

-- `readline` reads one line: if the next newline is within the bytes that the buffer has room for,
-- the buffer ends with the bytes up to it and what is left are the bytes behind it, however they
-- are cut into pieces. The length that it returns is at most that of the line.
pub readline_lem :
    (nleft : ℕ) (buffer : Bytes) (s : Socket) (i : ℕ)
    → is_sound s ≡ true
    → find_newline (bytes_of s) ≡ some i
    → i < nleft
    → (n : ℕ) × (s' : Socket) × (readline nleft buffer s
        ≡ returned n (buffer ++ take (suc i) (bytes_of s)) s')
      × (bytes_of s' ≡ drop (suc i) (bytes_of s))
      × (n ≤ suc i)
unfolding readline bytes_of is_sound
readline_lem nleft buffer [] i sound at fits = absurd (ground arith)
readline_lem nleft buffer (signal ∷ s) i sound at fits = readline_lem nleft buffer s i sound at fits
readline_lem nleft buffer (broken e ∷ s) i sound at fits = absurd (ground arith)
readline_lem nleft buffer (arrived b bs ∷ s) i sound at fits =
    let c : Bytes = b ∷ bs in
    let peek = take nleft c in
    let r = bytes_of s in
    let size = length-take nleft c in
    let whole =
      sym (append_assoc peek (drop nleft c) r) ∙ ap (λ l. l ++ r) (take-append-drop nleft c) in
    let at' = ap find_newline whole ∙ at in
    elim (Option-cases (find_newline peek)) [
      | inl absent ↦
          let short = find_newline-skip peek (drop nleft c ++ r) i absent at' in
          let all : peek ≡ c = take-all nleft c (omega (arith, size, short.1, fits)) in
          let past = find_newline-skip c r i (ap find_newline (sym all) ∙ absent) at in
          let room : leb nleft (length peek) ≡ false = ground (arith, short.1, fits) in
          let rec =
            readline_lem (nleft - length peek) (buffer ++ c) s past.0 sound past.2
              (omega (arith, past.1, fits, ap length all)) in
          let front = take-append_ge (suc i) (suc past.0) c r (omega (arith, past.1)) in
          let back = drop-append_ge (suc i) (suc past.0) c r (omega (arith, past.1)) in
          (
            rec.0,
            rec.1,
            readline-next nleft buffer b bs s absent room
                ∙ (rec.2
                    ∙ ap (λ l. returned rec.0 l rec.1)
                        (append_assoc buffer c (take (suc past.0) r)
                          ∙ ap (λ l. buffer ++ l) (sym front))),
            rec.3 ∙ sym back,
            omega (arith, rec.4, past.1),
          )
      | inr (j, found) ↦
          let pre = find_newline-append peek (drop nleft c ++ r) j found in
          let same : j ≡ i = ground (arith, pre.0, at') in
          let within : suc i ≤ length c = omega (arith, size, pre.1, same) in
          let front = take-append_le (suc i) c r within in
          let back = drop-append_le (suc i) c r within in
          (
            suc i,
            put_back (drop (suc i) c) s,
            rw found (ground (arith, same, front)),
            put_back-bytes_of (drop (suc i) c) s ∙ sym back,
            omega arith,
          )
    ]

-- Of a line that comes in two pieces `readline` returns the length of the second alone.
pub readline_miscounts :
    (b c : ℕ) (bs cs : Bytes) (max : ℕ)
    → find_newline (b ∷ bs) ≡ none
    → find_newline (c ∷ cs) ≡ some (length cs)
    → length (b ∷ bs) + length (c ∷ cs) ≤ max
    → readline max [] (arrived b bs ∷ arrived c cs ∷ [])
      ≡ returned (length (c ∷ cs)) ((b ∷ bs) ++ (c ∷ cs)) []
unfolding readline
readline_miscounts b c bs cs max first second room =
    let whole = take-all max (b ∷ bs) (omega (arith, room)) in
    let left = max - length (take max (b ∷ bs)) in
    let len = ap length whole in
    let rest = take-all left (c ∷ cs) (omega (arith, room, len)) in
    let first' = ap find_newline whole ∙ first in
    let second' = ap find_newline rest ∙ second in
    let not_full : leb max (length (take max (b ∷ bs))) ≡ false = ground (arith, room, len) in
    let taken = take-all (length cs) cs (omega arith) in
    let dropped = drop-all (length cs) cs (omega arith) in
    rw first' (rw not_full (rw second' (ground (arith, taken, dropped))))
