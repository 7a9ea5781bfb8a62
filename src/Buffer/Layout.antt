-- ===== src/Buffer/Layout.antt =====
-- The representation invariant of `Buffer`, and what it says of the sizes.
use moban.Prelude.{ℕ, ◌+◌, ◌-◌, ◌^◌, ◌≤◌, ◌<◌, ◌≡◌, Bytes, arith, length, slice, length-slice}
use moban.Buffer.{Buffer, cheap_prepend, readable_bytes, writeable_bytes}

pub record IsValid (b : Buffer) : Type 0 where
  pub ordered : b.reader_index ≤ b.write_index
  pub inside : b.write_index ≤ length b.buffer
  pub headroom : cheap_prepend ≤ length b.buffer
  pub small : length b.buffer < 2 ^ 63

abbrev pub contents : Buffer → Bytes
contents b = slice b.buffer b.reader_index (b.write_index - b.reader_index)

-- Room for `n` more bytes below the bound on the size of a vector.
abbrev pub Fits : Buffer → ℕ → Type 0
Fits b n = b.write_index + n + cheap_prepend < 2 ^ 63

pub sizes :
    {b : Buffer}
    → IsValid b
    → (readable_bytes b ≡ b.write_index - b.reader_index)
      × (writeable_bytes b ≡ length b.buffer - b.write_index)
      × (length (contents b) ≡ b.write_index - b.reader_index)
sizes {b} v = (
  omega arith,
  omega arith,
  length-slice b.buffer b.reader_index (b.write_index - b.reader_index) (omega arith),
)
