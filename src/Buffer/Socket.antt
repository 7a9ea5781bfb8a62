-- ===== src/Buffer/Socket.antt =====
-- `readFd`: the bytes that a socket delivers, through the vector and the block on the stack.
use moban.Prelude.{
  ℕ, ◌+◌, ◌-◌, ◌^◌, ◌≤◌, ◌<◌, ◌≡◌, refl, ap, ◌∙◌, Bytes, ◌++◌, arith, length, leb, inl, inr, none,
  some, add_size, slice, take, drop, write_at, Bool-cases, append_assoc, length-slice, length-take,
  length-drop, length-write_at, take-all, take-append-drop,
}
use moban.Buffer.{Buffer, cheap_prepend, writeable_bytes, read_fd, received, extra_size, put}
use moban.Buffer.Layout.{IsValid, contents, sizes}
use moban.Buffer.Contents.{append_lem, put_lem}

-- The bytes that fit: what `read_fd` does with them is what `append` does.
direct :
    (b : Buffer) (d : Bytes) (w : ℕ)
    → IsValid b
    → w ≡ b.write_index + length d
    → w ≤ length b.buffer
    → let b' = record b { buffer = write_at b.buffer b.write_index d; write_index = w } in
      IsValid b' × (contents b' ≡ contents b ++ d)
unfolding put
direct b d w v e h =
    let e' : w ≡ add_size b.write_index (length d) = omega arith in
    rw e' (put_lem b d v (omega arith))

-- However many bytes `readv` delivers to the two blocks, they stand in order behind those that were
-- readable before, and the number is returned. The vector stays below 2 ^ 63 bytes.
pub read_fd_lem :
    (b : Buffer) (d : Bytes)
    → IsValid b
    → length d ≤ writeable_bytes b + extra_size
    → length b.buffer + extra_size + cheap_prepend < 2 ^ 63
    → let (b', n, e) = read_fd b (received d) in
      IsValid b' × (contents b' ≡ contents b ++ d) × (n ≡ some (length d)) × (e ≡ none)
unfolding read_fd
read_fd_lem b d v h k =
    let (er, ew, lc) = sizes v in
    let w = writeable_bytes b in
    elim (Bool-cases (leb (length d) w)) [
      | inl t ↦
          let le : length d ≤ w = ground arith in
          let (v', e) =
            direct b d (add_size b.write_index (length d)) v (omega arith) (omega arith) in
          rw (t, take-all w d le) (v', e, refl, refl)
      | inr t ↦
          let lt : w < length d = ground arith in
          let first = take w d in
          let rest = slice d w (length d - w) in
          let lf : length first ≡ w = omega (arith, length-take w d) in
          let lr : length rest ≡ length d - w = length-slice d w (length d - w) (omega arith) in
          let (v1, c1) = direct b first (length b.buffer) v (omega arith) (omega arith) in
          let same : rest ≡ drop w d =
            take-all (length d - w) (drop w d) (omega (arith, length-drop w d)) in
          let lw : length (write_at b.buffer b.write_index first) ≡ length b.buffer =
            length-write_at b.buffer b.write_index first (omega arith) in
          let (v2, c2) =
            append_lem
              (record b {
                buffer = write_at b.buffer b.write_index first;
                write_index = length b.buffer;
              })
              rest v1 (omega arith) in
          let whole : (contents b ++ first) ++ rest ≡ contents b ++ d =
            append_assoc (contents b) first rest
            ∙ ap (λ t. contents b ++ t) (ap (λ t. first ++ t) same ∙ take-append-drop w d) in
          rw t (v2, c2 ∙ ap (λ t. t ++ rest) c1 ∙ whole, refl, refl)
    ]
