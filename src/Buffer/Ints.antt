-- ===== src/Buffer/Ints.antt =====
-- The integers of `buffer.cpp` in network byte order: what is written is read back.
use moban.Prelude.{
  ℕ, ◌-◌, ◌^◌, ◌≤◌, ◌<◌, ◌≡◌, refl, ap, sym, ◌∙◌, Bytes, [], ◌∷◌, ◌++◌, arith, length, take, drop,
  get_or, slice, append-nil, take-append, ltb, if◌then◌else◌, true, ◌+◌,
}
use moban.Buffer.{
  Buffer, readable_bytes, prependable_bytes, append, prepend, retrieve_as_string, encode32,
  encode16, encode8, decode32, decode16, read_int32, read_int16, read_int8, prepend_int32,
  append_int32, append_int16, append_int8,
}
use moban.Buffer.Layout.{IsValid, contents, Fits, sizes}
use moban.Buffer.Contents.{
  append_low, retrieve_lem, prepend_lem, append_lem, slice_prefix, retrieve_as_string_lem,
}

decode32-encode32 : (x : ℕ) (rest : Bytes) → x < 2 ^ 32 → decode32 (take 4 (encode32 x ++ rest)) ≡ x
decode32-encode32 x rest h = omega arith

decode16-encode16 : (x : ℕ) (rest : Bytes) → x < 2 ^ 16 → decode16 (take 2 (encode16 x ++ rest)) ≡ x
decode16-encode16 x rest h = omega arith

-- The first `n` bytes at `peek()` are the first readable ones.
front :
    (b : Buffer) (n : ℕ) (xs : Bytes)
    → IsValid b
    → contents b ≡ xs
    → n ≤ length xs
    → (slice b.buffer b.reader_index n ≡ take n xs) × (n ≤ readable_bytes b)
front b n xs v e h =
    let (er, ew, lc) = sizes v in
    let le : n ≤ b.write_index - b.reader_index = omega (arith, ap length e) in
    (
      slice_prefix b.buffer b.reader_index n (b.write_index - b.reader_index) le ∙ ap (take n) e,
      omega arith,
    )

module _ (b : Buffer) (x : ℕ) (rest : Bytes) (v : IsValid b) where
  -- A buffer that starts with the four bytes of `htonl(x)` gives `x`, and keeps the rest.
  pub read_int32_lem :
      contents b ≡ encode32 x ++ rest
      → x < 2 ^ 32
      → let (y, b') = read_int32 b in IsValid b' × (y ≡ x) × (contents b' ≡ rest)
  unfolding read_int32
  read_int32_lem e h =
      let (s, le) = front b 4 (encode32 x ++ rest) v e (omega arith) in
      let (v', c) = retrieve_lem b 4 v le in
      (v', ap decode32 s ∙ decode32-encode32 x rest h, c ∙ ap (drop 4) e)

  pub read_int16_lem :
      contents b ≡ encode16 x ++ rest
      → x < 2 ^ 16
      → let (y, b') = read_int16 b in IsValid b' × (y ≡ x) × (contents b' ≡ rest)
  unfolding read_int16
  read_int16_lem e h =
      let (s, le) = front b 2 (encode16 x ++ rest) v e (omega arith) in
      let (v', c) = retrieve_lem b 2 v le in
      (v', ap decode16 s ∙ decode16-encode16 x rest h, c ∙ ap (drop 2) e)

  pub read_int8_lem :
      contents b ≡ encode8 x ++ rest
      → x < 2 ^ 8
      → let (y, b') = read_int8 b in IsValid b' × (y ≡ x) × (contents b' ≡ rest)
  unfolding read_int8
  read_int8_lem e h =
      let (s, le) = front b 1 (encode8 x ++ rest) v e (omega arith) in
      let (v', c) = retrieve_lem b 1 v le in
      (v', ap (λ (t : Bytes). get_or t 0 0) s ∙ omega arith, c ∙ ap (drop 1) e)

-- Integers of the three widths, appended to an empty buffer one after the other, are read back in
-- the same order, and leave the buffer empty.
pub read-append :
    (b : Buffer) (x y z : ℕ)
    → IsValid b
    → contents b ≡ []
    → Fits b 64
    → x < 2 ^ 32
    → y < 2 ^ 16
    → z < 2 ^ 8
    → let (x', b1) = read_int32 (append_int8 (append_int16 (append_int32 b x) y) z) in
      let (y', b2) = read_int16 b1 in
      let (z', b3) = read_int8 b2 in (x' ≡ x) × (y' ≡ y) × (z' ≡ z) × (contents b3 ≡ [])
unfolding append_int32 append_int16 append_int8
read-append b x y z v e f hx hy hz =
    let bx = append b (encode32 x) in
    let (vx, cx) = append_lem b (encode32 x) v (omega arith) in
    let lx = append_low b (encode32 x) v (omega arith) in
    let by = append bx (encode16 y) in
    let (vy, cy) = append_lem bx (encode16 y) vx (omega arith) in
    let ly = append_low bx (encode16 y) vx (omega arith) in
    let bz = append by (encode8 z) in
    let (vz, cz) = append_lem by (encode8 z) vy (omega arith) in
    let all : contents bz ≡ encode32 x ++ (encode16 y ++ (encode8 z ++ [])) =
      cz
      ∙ ap (λ t. t ++ encode8 z)
          (cy ∙ ap (λ t. t ++ encode16 y) (cx ∙ ap (λ t. t ++ encode32 x) e)) in
    let (v1, e1, c1) = read_int32_lem bz x (encode16 y ++ (encode8 z ++ [])) vz all hx in
    let (v2, e2, c2) = read_int16_lem (read_int32 bz).1 y (encode8 z ++ []) v1 c1 hy in
    let (v3, e3, c3) = read_int8_lem (read_int16 (read_int32 bz).1).1 z [] v2 c2 hz in
    (e1, e2, e3, c3)

-- An `int32_t` stands for its 32 bits, and where it becomes a `size_t` its sign is extended.
abbrev pub to_size : ℕ → ℕ
to_size n = if ltb n (2 ^ 31) then n else n + (2 ^ 64 - 2 ^ 32)

-- What `prependInt32` puts in front is what `readInt32` takes off, and the payload stays: the frame
-- of a length and a message is taken apart into the two, if an `int32_t` holds the length.
pub unframe-frame :
    (b : Buffer) (s : Bytes)
    → IsValid b
    → contents b ≡ s
    → length s < 2 ^ 31
    → 4 ≤ prependable_bytes b
    → let (n, b1) = read_int32 (prepend_int32 b (length s)) in
      let (t, b2) = retrieve_as_string b1 (to_size n) in
      (n ≡ length s) × (t ≡ s) × (contents b2 ≡ [])
unfolding prepend_int32
unframe-frame b s v e h k =
    let n = length s in
    let (v0, c0) = prepend_lem b (encode32 n) v k in
    let (v1, en, c1) =
      read_int32_lem (prepend b (encode32 n)) n s v0 (c0 ∙ ap (λ t. encode32 n ++ t) e)
        (omega (arith, h)) in
    let b1 : Buffer = (read_int32 (prepend b (encode32 n))).1 in
    let (er, ew, lc) = sizes v1 in
    let fits : n ≤ readable_bytes b1 = omega (arith, ap length c1) in
    let (v2, et, c2) = retrieve_as_string_lem b1 n v1 fits in
    let low : ltb (length s) (2 ^ 31) ≡ true = ground (arith, h) in
    rw (en, low) (refl, et ∙ ap (take n) c1 ∙ whole s, c2 ∙ ap (drop n) c1 ∙ nothing s)
  where
    whole : (s : Bytes) → take (length s) s ≡ s
    whole s = ap (take (length s)) (sym (append-nil s)) ∙ take-append (length s) s [] refl

    nothing : (s : Bytes) → drop (length s) s ≡ []
    nothing [] = refl
    nothing (a ∷ s) = nothing s
