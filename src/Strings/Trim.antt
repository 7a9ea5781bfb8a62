-- ===== src/Strings/Trim.antt =====
-- `ltrim`, `rtrim` and `trim` of string_utils.h.
pub mod Laws
use moban.Prelude.{
  ℕ, zero, suc, ◌+◌, ◌-◌, Bool, ◌||◌, Bytes, [], ◌∷◌, ◌==◌, if◌then◌else◌, length, take, drop,
  get_or, slice,
}

unfoldable pub is_ascii_whitespace : ℕ → Bool
is_ascii_whitespace c = c == b' ' || c == b'\t' || c == b'\n' || c == 11 || c == 12 || c == b'\r'

-- `while (begin < end && space(input[begin])) ++begin`, from 0, over the bytes before `end`: how far
-- it comes.
leading : Bytes → ℕ
leading [] = 0
leading (c ∷ s) = let n = leading s in if is_ascii_whitespace c then n + 1 else 0

-- `while (end > begin && space(input[end - 1])) --end`, with `n` for `end - begin`.
trailing : Bytes → ℕ → ℕ → ℕ
trailing input begin zero = zero
trailing input begin (suc n) =
    let rest = trailing input begin n in
    if is_ascii_whitespace (get_or input (begin + n) 0) then rest else suc n

unfoldable pub ltrim : Bytes → Bytes
unfolding leading
ltrim input = drop (leading input) input

unfoldable pub rtrim : Bytes → Bytes
unfolding trailing
rtrim input = take (trailing input 0 (length input)) input

unfoldable pub trim : Bytes → Bytes
unfolding leading trailing
trim input =
    let begin = leading input in
    let n = trailing input begin (length input - begin) in slice input begin n
