-- ===== src/Ftp/Session/Stream.antt =====
-- `onMessage`: the lines of the control connection, however its bytes arrive.
use moban.Ftp.Session.{Session, Outside, control_force_close, emit}
use moban.Ftp.Session.Command.{handle_command, on_message_loop, on_message}
use moban.Buffer.{Buffer, retrieve_until, readable_bytes, peek}
use moban.Buffer.Layout.{IsValid, contents, sizes}
use moban.Buffer.Contents.{slice_prefix}
use moban.Buffer.Lines.{crlf, Found, find_crlf_lem, retrieve_until_lem}
use moban.Buffer.Cuts.{Cut, rest, line, Found-inside}
use moban.Prelude.{
  ℕ, zero, suc, ◌+◌, ◌-◌, ◌≤◌, ◌≡◌, ◌≢◌, refl, ap, Bytes, List, [], ◌∷◌, ◌++◌, arith, length, take,
  drop, ltb, ◌==◌, if◌then◌else◌, subst, length-drop, false, Bool-cases, inl, inr, slice,
}

-- The session handles the lines one after the other.
pub data Handles : Session → List Bytes → Session → Type 0 where
  done : {s : Session} → Handles s [] s
  next :
      {s t : Session} {l : Bytes} {ls : List Bytes} (o : Outside)
      → Handles (handle_command s l o) ls t
      → Handles s (l ∷ ls) t

-- A rest that is too long for a line closes the connection.
pub close_overlong : Bytes → Session → Session
unfolding emit
close_overlong r s = if ltb 4096 (length r) then emit s control_force_close else s

pub not_closed : (r : Bytes) (s : Session) → length r ≤ 4096 → close_overlong r s ≡ s
unfolding close_overlong
not_closed r s h = let e : ltb 4096 (length r) ≡ false = ground arith in rw e refl

-- The outcome of a delivery that finds the text in the buffer.
pub record Reads (text : Bytes) (s : Session) (after : Session × Buffer) : Type 0 where
  pub lines : List Bytes
  pub left : Session
  pub valid : IsValid after.1
  pub cut : Cut text lines (contents after.1)
  pub handled : Handles s lines left
  pub closed : after.0 ≡ close_overlong (contents after.1) left

pub empty_lacks : (s xs ys : Bytes) → length s ≡ 0 → s ≢ xs ++ (crlf ++ ys)
empty_lacks [] [] ys h e = cc
empty_lacks [] (x ∷ xs) ys h e = cc
empty_lacks (c ∷ s) xs ys h e = omega arith

-- No line is left.
rest-Reads :
    (s : Session) (b : Buffer)
    → IsValid b
    → ((xs ys : Bytes) → contents b ≢ xs ++ (crlf ++ ys))
    → Reads (contents b) s (close_overlong (contents b) s, b)
rest-Reads s b v lacks = record {
  lines = [];
  left = s;
  valid = v;
  cut = rest lacks;
  handled = done;
  closed = refl;
}

empty-Reads :
    (s : Session) (b : Buffer) → IsValid b → length (contents b) ≡ 0 → Reads (contents b) s (s, b)
unfolding close_overlong
empty-Reads s b v h = record {
  lines = [];
  left = s;
  valid = v;
  cut = rest (λ xs ys. empty_lacks (contents b) xs ys h);
  handled = done;
  closed = rw h refl;
}

-- One line is handled, and the others behind it.
line-Reads :
    (s : Session) (text : Bytes) (n : ℕ) (o : Outside) {after : Session × Buffer}
    → Found text n
    → Reads (drop (suc (suc n)) text) (handle_command s (take n text) o) after
    → Reads text s after
line-Reads s text n o f r = record {
  lines = take n text ∷ r.lines;
  left = r.left;
  valid = r.valid;
  cut = line n f r.cut;
  handled = next o r.handled;
  closed = r.closed;
}

-- The line that is cut off the front, and the buffer behind it.
front_line :
    (b : Buffer) (n : ℕ)
    → IsValid b
    → Found (contents b) n
    → (slice b.buffer (peek b) ((b.reader_index + n) - peek b) ≡ take n (contents b))
      × IsValid (retrieve_until b ((b.reader_index + n) + 2))
      × (contents (retrieve_until b ((b.reader_index + n) + 2)) ≡ drop (suc (suc n)) (contents b))
front_line b n v f =
    let (er, ew, lc) = sizes v in
    let inside = Found-inside f in
    let e : (b.reader_index + n) - b.reader_index ≡ n = omega arith in
    let k : (b.reader_index + n) + 2 ≡ b.reader_index + suc (suc n) = omega arith in
    let (valid, behind) = retrieve_until_lem b (suc (suc n)) v inside in
    (
      rw e (slice_prefix b.buffer b.reader_index n (b.write_index - b.reader_index) (omega arith)),
      rw k valid,
      rw k behind,
    )

-- The loop ends early if nothing is left.
after_line :
    (s : Session) (b : Buffer) {after : Session × Buffer}
    → IsValid b
    → Reads (contents b) s after
    → Reads (contents b) s (if readable_bytes b == 0 then (s, b) else after)
after_line s b v r =
    let (er, ew, lc) = sizes v in
    elim (Bool-cases (readable_bytes b == 0)) [
      | inl t ↦ rw t (empty-Reads s b v (ground arith))
      | inr t ↦ rw t r
    ]

on_message_loop-Reads :
    (fuel : ℕ) (s : Session) (b : Buffer) (outside : ℕ → Outside)
    → IsValid b
    → length (contents b) ≤ fuel
    → Reads (contents b) s (on_message_loop fuel s b outside)
unfolding on_message_loop close_overlong
on_message_loop-Reads zero s b outside v h = empty-Reads s b v (omega arith)
on_message_loop-Reads (suc fuel) s b outside v h = elim (find_crlf_lem b v) [
  | inl (e, lacks) ↦
      let (er, ew, lc) = sizes v in
      let l : readable_bytes b ≡ length (contents b) = omega arith in
      rw (on_message_loop, e, l) (rest-Reads s b v lacks)
  | inr (n, e, f) ↦
      let (same, valid, behind) = front_line b n v f in
      let s' = handle_command s (take n (contents b)) (outside fuel) in
      let b' = retrieve_until b ((b.reader_index + n) + 2) in
      rw (on_message_loop, e, same)
        (line-Reads s (contents b) n (outside fuel) f (
          subst
            (λ text.
              Reads text s'
                (if readable_bytes b' == 0 then (s', b') else on_message_loop fuel s' b' outside))
            behind
            (after_line s' b' valid (
              on_message_loop-Reads fuel s' b' outside valid
                (omega (arith, ap length behind, length-drop (suc (suc n)) (contents b)))))))
]

-- `onMessage` handles the lines that the readable bytes have, each up to the first line end, in order; it
-- leaves the bytes behind the last line end in the buffer, and closes the connection exactly if these are
-- more than 4096.
pub on_message-Reads :
    (s : Session) (b : Buffer) (outside : ℕ → Outside)
    → IsValid b
    → Reads (contents b) s (on_message s b outside)
unfolding on_message
on_message-Reads s b outside v =
    let (er, ew, lc) = sizes v in
    on_message_loop-Reads (readable_bytes b) s b outside v (omega arith)
