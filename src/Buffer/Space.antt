-- ===== src/Buffer/Space.antt =====
-- `makeSpace` and `ensureWriteableBytes`: the readable bytes stay, and there is room behind them.
use moban.Prelude.{
  ℕ, ◌+◌, ◌-◌, ◌≤◌, ◌<◌, ◌≡◌, refl, Bytes, ◌++◌, arith, length, ltb, true, false, inl, inr,
  add_size, slice, take, drop, replicate, write_at, Bool-cases, length-append, length-take,
  length-drop, length-replicate, length-write_at, take-append_le, drop-append_le, drop-append_ge,
  take-all, take-append,
}
use moban.Buffer.{
  Buffer, cheap_prepend, readable_bytes, writeable_bytes, prependable_bytes, make_space,
  ensure_writeable_bytes, resize,
}
use moban.Buffer.Layout.{IsValid, contents, Fits, sizes}

pub ltb→lt : {a b : ℕ} → ltb a b ≡ true → a < b
ltb→lt h = ground arith

pub ltb-false : {a b : ℕ} → ltb a b ≡ false → b ≤ a
ltb-false h = ground arith

slice-append : (xs zs : Bytes) (r n : ℕ) → r + n ≤ length xs → slice (xs ++ zs) r n ≡ slice xs r n
slice-append xs zs r n h =
    rw (drop-append_le r xs zs (omega arith))
      (take-append_le n (drop r xs) zs (omega (arith, length-drop r xs)))

slice-write_at_self :
    (xs d : Bytes) (i n : ℕ) → i + n ≤ length xs → n ≡ length d → slice (write_at xs i d) i n ≡ d
slice-write_at_self xs d i n h e =
    let behind = drop (i + length d) xs in
    rw (drop-append_ge i 0 (take i xs) (d ++ behind) (omega (arith, length-take i xs)))
      (take-append n d behind e)

-- What `makeSpace` and `ensureWriteableBytes` leave: the same bytes, and room.
pub record Roomy (b b' : Buffer) (len : ℕ) : Type 0 where
  pub valid : IsValid b'
  pub same : contents b' ≡ contents b
  pub room : b'.write_index + len ≤ length b'.buffer
  pub low : b'.write_index ≤ b.write_index

-- The growing branch of `makeSpace`.
grow_Roomy :
    (b : Buffer) (len : ℕ)
    → IsValid b
    → Fits b len
    → length b.buffer < b.write_index + len
    → Roomy b (record b { buffer = resize b.buffer (add_size b.write_index len) }) len
grow_Roomy b len v f h =
    let n = b.write_index + len in
    let e : add_size b.write_index len ≡ n = omega arith in
    let whole : take n b.buffer ≡ b.buffer = take-all n b.buffer (omega arith) in
    let zs : Bytes = replicate (n - length b.buffer) 0 in
    let lz : length zs ≡ n - length b.buffer = length-replicate (n - length b.buffer) 0 in
    let la : length (b.buffer ++ zs) ≡ length b.buffer + length zs = length-append b.buffer zs in
    rw (e, whole)
      (record {
        valid = omega arith;
        same =
            slice-append b.buffer zs b.reader_index (b.write_index - b.reader_index) (omega arith);
        room = omega arith;
        low = omega arith;
      })

-- The compacting branch of `makeSpace`.
compact_Roomy :
    (b : Buffer) (len : ℕ)
    → IsValid b
    → len + cheap_prepend ≤ length b.buffer - b.write_index + b.reader_index
    → cheap_prepend ≤ b.reader_index
    → Roomy b
        (record {
          buffer =
              write_at b.buffer cheap_prepend (slice b.buffer b.reader_index (readable_bytes b));
          reader_index = cheap_prepend;
          write_index = add_size cheap_prepend (readable_bytes b);
        })
        len
compact_Roomy b len v h k =
    let (er, ew, lc) = sizes v in
    let n = b.write_index - b.reader_index in
    let e : add_size cheap_prepend n ≡ cheap_prepend + n = omega arith in
    let lw : length (write_at b.buffer cheap_prepend (contents b)) ≡ length b.buffer =
      length-write_at b.buffer cheap_prepend (contents b) (omega arith) in
    let e' : cheap_prepend + n - cheap_prepend ≡ n = omega arith in
    rw (er, e)
      (record {
        valid = omega arith;
        same =
            rw e' (
              slice-write_at_self b.buffer (contents b) cheap_prepend n (omega arith)
                (omega arith));
        room = omega arith;
        low = omega arith;
      })

make_space-Roomy :
    (b : Buffer) (len : ℕ)
    → IsValid b
    → Fits b len
    → writeable_bytes b < len
    → Roomy b (make_space b len) len
unfolding make_space
make_space-Roomy b len v f h =
    let (er, ew, lc) = sizes v in
    let test =
      ltb (add_size (writeable_bytes b) (prependable_bytes b)) (add_size len cheap_prepend) in
    elim (Bool-cases test) [
      | inl t ↦ rw t (grow_Roomy b len v f (omega arith))
      | inr t ↦ let far = ltb-false t in rw t (compact_Roomy b len v (omega arith) (omega arith))
    ]

-- The `assert(kCheapprepend < readerIndex_)` of `makeSpace` never fails when `ensureWriteableBytes`
-- calls it: where the vector is not grown, the reader is past the headroom.
pub make_space_assert :
    (b : Buffer) (len : ℕ)
    → IsValid b
    → Fits b len
    → writeable_bytes b < len
    → add_size len cheap_prepend ≤ add_size (writeable_bytes b) (prependable_bytes b)
    → cheap_prepend < b.reader_index
make_space_assert b len v f h k = omega arith

pub ensure_writeable_bytes-Roomy :
    (b : Buffer) (len : ℕ) → IsValid b → Fits b len → Roomy b (ensure_writeable_bytes b len) len
unfolding ensure_writeable_bytes
ensure_writeable_bytes-Roomy b len v f =
    let (er, ew, lc) = sizes v in
    elim (Bool-cases (ltb (writeable_bytes b) len)) [
      | inl t ↦ rw t (make_space-Roomy b len v f (ltb→lt t))
      | inr t ↦
          let room = ltb-false t in
          rw t (record { valid = v; same = refl; room = omega arith; low = omega arith })
    ]
