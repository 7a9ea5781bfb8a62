-- ===== src/CStrings/Laws.antt =====
-- CStrings.antt: what is cut off, and where a text is split.
use moban.Prelude.{
  ℕ, zero, suc, ◌≤◌, ◌<◌, ◌==◌, ◌≡◌, refl, true, false, Bool-cases, inl, inr, Bytes, length, take,
  get_or, arith,
}
use moban.CStrings.{is_crlf, trim_loop, str_trim_crlf}

-- The loop stops at the first byte from the end that is no line end.
trim_loop_lem :
    (str : Bytes) (len : ℕ)
    → (trim_loop str len ≤ len)
      × ((i : ℕ) → trim_loop str len ≤ i → i < len → is_crlf (get_or str i 0) ≡ true)
      × ((i : ℕ) → trim_loop str len ≡ suc i → is_crlf (get_or str i 0) ≡ false)
unfolding trim_loop
trim_loop_lem str zero = (omega arith, λ i h k. absurd (omega arith), λ i h. absurd (omega arith))
trim_loop_lem str (suc len) =
    let rest = trim_loop_lem str len in
    elim (Bool-cases (is_crlf (get_or str len 0))) [
      | inl end ↦ rw end (
        omega (arith, rest.0),
        λ i h k. elim (Bool-cases (i == len)) [
          | inl same ↦ ground (arith, same, end)
          | inr other ↦ rest.1 i h (ground arith)
        ],
        rest.2,
      )
      | inr keep ↦ rw keep (
        omega arith,
        λ i h k. absurd (omega arith),
        λ i h. let same : i ≡ len = omega (arith, h) in rw same keep,
      )
    ]

-- `str_trim_crlf` cuts off line ends only, and all of them: it keeps a prefix, behind which every
-- byte is one, and the last byte that it keeps is none.
pub str_trim_crlf_lem :
    (str : Bytes)
    → (n : ℕ) × (str_trim_crlf str ≡ take n str)
      × ((i : ℕ) → n ≤ i → i < length str → is_crlf (get_or str i 0) ≡ true)
      × ((i : ℕ) → n ≡ suc i → is_crlf (get_or str i 0) ≡ false)
unfolding str_trim_crlf
str_trim_crlf_lem str =
    let all = trim_loop_lem str (length str) in (trim_loop str (length str), refl, all.1, all.2)
