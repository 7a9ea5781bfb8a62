-- ===== src/Buffer/Contents.antt =====
-- Every operation keeps the layout, and acts on the readable bytes as on a queue of bytes.
use moban.Prelude.{
  ℕ, ◌+◌, ◌-◌, ◌^◌, ◌≤◌, ◌<◌, ◌≡◌, refl, ap, sym, ◌∙◌, Bytes, [], ◌++◌, arith, length, ltb, inl,
  inr, add_size, sub_size, slice, take, drop, write_at, Bool-cases, length-slice, length-take,
  length-write_at, take-append_ge, drop-append_le, drop-append_ge, drop-take, drop-drop, take-all,
  drop-all, take-take, take-append,
}
use moban.Buffer.{
  Buffer, new, initial_size, readable_bytes, writeable_bytes, prependable_bytes, retrieve,
  retrieve_all, ensure_writeable_bytes, put, append, prepend, retrieve_as_string,
  retrieve_all_as_string, shrink,
}
use moban.Buffer.Layout.{IsValid, contents, Fits, sizes}
use moban.Buffer.Space.{Roomy, ensure_writeable_bytes-Roomy, ltb→lt, ltb-false}

-- A write just past the readable part extends it.
slice-write_at :
    (xs d : Bytes) (r w : ℕ)
    → r ≤ w
    → w + length d ≤ length xs
    → slice (write_at xs w d) r ((w + length d) - r) ≡ slice xs r (w - r) ++ d
slice-write_at xs d r w h k =
    let behind = drop (w + length d) xs in
    let lt : length (take w xs) ≡ w = omega (arith, length-take w xs) in
    let ls : length (slice xs r (w - r)) ≡ w - r = length-slice xs r (w - r) (omega arith) in
    rw
      (
        drop-append_le r (take w xs) (d ++ behind) (omega arith),
        drop-take r w xs,
        take-append_ge ((w + length d) - r) (length d) (slice xs r (w - r)) (d ++ behind)
            (omega arith),
      )
      (ap (λ t. slice xs r (w - r) ++ t) (take-append (length d) d behind refl))

-- A shorter slice from the same position.
pub slice_prefix : (xs : Bytes) (i m n : ℕ) → m ≤ n → slice xs i m ≡ take m (slice xs i n)
slice_prefix xs i m n h = take-take m n (drop i xs) h

-- A write just before the readable part extends it.
slice-write_before :
    (xs d : Bytes) (i r w : ℕ)
    → r ≡ i + length d
    → r ≤ w
    → w ≤ length xs
    → slice (write_at xs i d) i (w - i) ≡ d ++ slice xs r (w - r)
slice-write_before xs d i r w e h k =
    let behind = drop (i + length d) xs in
    rw
      (
        drop-append_ge i 0 (take i xs) (d ++ behind) (omega (arith, length-take i xs)),
        take-append_ge (w - i) (w - r) d behind (omega arith),
        e,
      )
      refl

pub put_lem :
    (b : Buffer) (d : Bytes)
    → IsValid b
    → b.write_index + length d ≤ length b.buffer
    → IsValid (put b d) × (contents (put b d) ≡ contents b ++ d)
unfolding put
put_lem b d v h =
    let lw = length-write_at b.buffer b.write_index d h in
    let e : add_size b.write_index (length d) ≡ b.write_index + length d = omega arith in
    ((omega arith), rw e (slice-write_at b.buffer d b.reader_index b.write_index v.ordered h))

-- `append` keeps the layout valid, and puts the bytes behind the readable ones, whatever it has to move
-- or to allocate, if the vector stays below 2 ^ 63 bytes.
pub append_lem :
    (b : Buffer) (d : Bytes)
    → IsValid b
    → Fits b (length d)
    → IsValid (append b d) × (contents (append b d) ≡ contents b ++ d)
unfolding append
append_lem b d v f =
    let r = ensure_writeable_bytes-Roomy b (length d) v f in
    let (v', e) = put_lem (ensure_writeable_bytes b (length d)) d r.valid r.room in
    (v', e ∙ ap (λ t. t ++ d) r.same)

pub append_low :
    (b : Buffer) (d : Bytes)
    → IsValid b
    → Fits b (length d)
    → (append b d).write_index ≤ b.write_index + length d
unfolding append put
append_low b d v f =
    let r = ensure_writeable_bytes-Roomy b (length d) v f in omega (arith, r.low, r.room, r.valid)

-- `retrieve` of no more bytes than are readable drops them from the front of a valid buffer, and
-- leaves a valid one.
pub retrieve_lem :
    (b : Buffer) (len : ℕ)
    → IsValid b
    → len ≤ readable_bytes b
    → IsValid (retrieve b len) × (contents (retrieve b len) ≡ drop len (contents b))
unfolding retrieve retrieve_all
retrieve_lem b len v h =
    let (er, ew, lc) = sizes v in
    let n = b.write_index - b.reader_index in
    elim (Bool-cases (ltb len (readable_bytes b))) [
      | inl t ↦
          let lt = ltb→lt t in
          let e : add_size b.reader_index len ≡ b.reader_index + len = omega arith in
          let e' : b.write_index - (b.reader_index + len) ≡ n - len = omega arith in
          rw (t, e)
            (
              (omega arith),
              rw
                  (
                    drop-take len n (drop b.reader_index b.buffer),
                    drop-drop len b.reader_index b.buffer,
                    e',
                  )
                  refl,
            )
      | inr t ↦
          rw t
            ((omega arith), sym (drop-all len (contents b) (let ge = ltb-false t in omega arith)))
    ]

-- `retrieveAsString` returns the first `len` readable bytes and drops them.
pub retrieve_as_string_lem :
    (b : Buffer) (len : ℕ)
    → IsValid b
    → len ≤ readable_bytes b
    → let (s, b') = retrieve_as_string b len in
      IsValid b' × (s ≡ take len (contents b)) × (contents b' ≡ drop len (contents b))
unfolding retrieve_as_string
retrieve_as_string_lem b len v h =
    let (er, ew, lc) = sizes v in
    let (v', e) = retrieve_lem b len v h in
    (v', slice_prefix b.buffer b.reader_index len (b.write_index - b.reader_index) (omega arith), e)

pub retrieve_all_as_string_lem :
    (b : Buffer) → IsValid b → (retrieve_all_as_string b).0 ≡ contents b
unfolding retrieve_all_as_string
retrieve_all_as_string_lem b v =
    let (er, ew, lc) = sizes v in
    let (v', e, _) = retrieve_as_string_lem b (readable_bytes b) v (omega arith) in
    e ∙ take-all (readable_bytes b) (contents b) (omega arith)

-- `prepend` puts the bytes before the readable ones of a valid buffer, if there is headroom, and
-- leaves a valid one.
pub prepend_lem :
    (b : Buffer) (d : Bytes)
    → IsValid b
    → length d ≤ prependable_bytes b
    → IsValid (prepend b d) × (contents (prepend b d) ≡ d ++ contents b)
unfolding prepend
prepend_lem b d v h =
    let r = b.reader_index - length d in
    let e : sub_size b.reader_index (length d) ≡ r = omega arith in
    let lw = length-write_at b.buffer r d (omega arith) in
    rw e (
      (omega arith),
      slice-write_before b.buffer d r b.reader_index b.write_index (omega arith) v.ordered v.inside,
    )

pub new-IsValid : IsValid new × (contents new ≡ []) × (writeable_bytes new ≡ initial_size)
unfolding new
new-IsValid = (omega arith, refl, refl)

pub new-Fits : (n : ℕ) → n < 2 ^ 62 → Fits new n
unfolding new
new-Fits n h = omega arith

put_room :
    (b : Buffer) (d : Bytes) (k : ℕ)
    → IsValid b
    → b.write_index + (length d + k) ≤ length b.buffer
    → k ≤ writeable_bytes (put b d)
unfolding put
put_room b d k v h = omega (arith, length-write_at b.buffer b.write_index d (omega arith))

append_in_place : (b : Buffer) (d : Bytes) → length d ≤ writeable_bytes b → append b d ≡ put b d
unfolding append ensure_writeable_bytes
append_in_place b d h = elim (Bool-cases (ltb (writeable_bytes b) (length d))) [
  | inl t ↦ let lt = ltb→lt t in absurd (omega arith)
  | inr t ↦ rw t refl
]

-- `shrink` of a valid buffer that stays below 2 ^ 62 bytes keeps the readable bytes and leaves a
-- valid buffer with `reserve` free bytes behind them.
pub shrink_lem :
    (b : Buffer) (reserve : ℕ)
    → IsValid b
    → length b.buffer + reserve < 2 ^ 62
    → IsValid (shrink b reserve)
      × (contents (shrink b reserve) ≡ contents b)
      × (reserve ≤ writeable_bytes (shrink b reserve))
unfolding shrink
shrink_lem b reserve v h =
    let (er, ew, lc) = sizes v in
    let s = contents b in
    let total = add_size (readable_bytes b) reserve in
    let (v0, c0, w0) = new-IsValid in
    let other = ensure_writeable_bytes new total in
    let r : Roomy new other total =
      ensure_writeable_bytes-Roomy new total v0 (new-Fits total (omega arith)) in
    let room : other.write_index + (length s + reserve) ≤ length other.buffer =
      omega (arith, r.room) in
    let (_, ew', _) = sizes r.valid in
    let (v', e) = put_lem other s r.valid (omega arith) in
    rw (retrieve_all_as_string_lem b v, append_in_place other s (omega (arith, r.valid)))
      (v', e ∙ ap (λ t. t ++ s) (r.same ∙ c0), put_room other s reserve r.valid room)
