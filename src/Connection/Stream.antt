-- ===== src/Connection/Stream.antt =====
-- The bytes of a connection: what is sent reaches the kernel once, in order.
use moban.Connection.{Written, Connection, is_disconnected}
use moban.Connection.Transfer.{send_loop, send_idle, keep_rest, write_now, is_fault}
use moban.Buffer.{append, readable_bytes}
use moban.Buffer.Layout.{IsValid, contents, Fits, sizes}
use moban.Buffer.Contents.{append_lem}
use moban.Channel.{is_writing}
use moban.Channel.Watching.{Kept, enable_writing-Kept}
use moban.Prelude.{
  ℕ, ◌+◌, ◌≤◌, ◌<◌, ◌≡◌, refl, ap, sym, ◌∙◌, true, false, Bytes, Option, some, [], ◌∷◌, ◌++◌,
  length, take, drop, arith, Bool-cases, inl, inr, append_assoc, take-append-drop, ltb, ◌==◌,
  length-append, append-nil, length-drop,
}

-- What has been sent: taken by the kernel, then waiting in the output buffer.
abbrev pub sent : Connection → Bytes
sent c = c.wire ++ contents c.output

-- The invariant of an open connection: it waits to write exactly while bytes wait.
pub record Flows (c : Connection) : Type 0 where
  pub valid : IsValid c.output
  pub kept : Kept c.channel
  pub waits : is_writing c.channel ≡ ltb 0 (readable_bytes c.output)

-- A run of an operation on an open connection that has `d` sent behind what was sent before.
abbrev pub Sends : Option Connection → Connection → Bytes → Type 0
Sends r c d =
    (c' : Connection) × (r ≡ some c') × Flows c' × (sent c' ≡ sent c ++ d) × (c'.state ≡ c.state)

-- Bytes wait behind an append.
readable-append :
    (c : Connection) (x : ℕ) (r : Bytes)
    → IsValid c.output
    → Fits c.output (length (x ∷ r))
    → let b = append c.output (x ∷ r) in
      IsValid b × (contents b ≡ contents c.output ++ x ∷ r) × (ltb 0 (readable_bytes b) ≡ true)
readable-append c x r v f =
    let (vb, eb) = append_lem c.output (x ∷ r) v f in
    let (er, ew, lc) = sizes vb in
    let le : length (contents (append c.output (x ∷ r)))
        ≡ length (contents c.output) + length (x ∷ r) =
      ap length eb ∙ length-append (contents c.output) (x ∷ r) in
    let more : 0 < readable_bytes (append c.output (x ∷ r)) = omega arith in (vb, eb, ground arith)

keep_rest-Sends :
    (c : Connection) (rest : Bytes)
    → Flows c
    → Fits c.output (length rest)
    → Sends (keep_rest c rest) c rest
unfolding keep_rest
keep_rest-Sends c [] fl f = (c, refl, fl, sym (append-nil (sent c)), refl)
keep_rest-Sends c (x ∷ r) fl f =
    let l : ltb 0 (length (x ∷ r)) ≡ true = ground arith in
    let (v, e, p) = readable-append c x r fl.valid f in
    let same : c.wire ++ contents (append c.output (x ∷ r)) ≡ sent c ++ x ∷ r =
      ap (λ t. c.wire ++ t) e ∙ sym (append_assoc c.wire (contents c.output) (x ∷ r)) in
    elim (Bool-cases (is_writing c.channel)) [
      | inl t ↦
          rw (l, t) (_, refl, record { valid = v; kept = fl.kept; waits = t ∙ sym p }, same, refl)
      | inr t ↦
          let (ch, ec, kc, wc) = enable_writing-Kept c.channel fl.kept in
          rw (l, t, ec) (_, refl, record { valid = v; kept = kc; waits = wc ∙ sym p }, same, refl)
    ]

empty-length : (xs : Bytes) → length xs ≡ 0 → xs ≡ []
empty-length [] h = refl
empty-length (x ∷ xs) h = absurd (ground arith)

-- What is taken moves past an empty buffer.
past_empty : (w a d m o : Bytes) → o ≡ [] → a ++ d ≡ m → ((w ++ a) ++ o) ++ d ≡ (w ++ o) ++ m
past_empty w a d m o e h =
    ap (λ t. ((w ++ a) ++ t) ++ d) e
    ∙ ap (λ t. t ++ d) (append-nil (w ++ a))
    ∙ append_assoc w a d
    ∙ ap (λ t. w ++ t) h
    ∙ sym (ap (λ t. t ++ m) (ap (λ t. w ++ t) e ∙ append-nil w))

-- Nothing waits, so the kernel has what it takes, and the rest is kept.
send_idle-Sends :
    (c : Connection) (message : Bytes) (w : Written)
    → Flows c
    → contents c.output ≡ []
    → is_fault w.errno ≡ false
    → Fits c.output (length message)
    → Sends (send_idle c message w) c message
unfolding send_idle write_now
send_idle-Sends c message w fl e g f = elim (Bool-cases (ltb 0 w.count)) [
  | inl t ↦
      let c' = write_now c message w in
      let fl' : Flows c' = record { valid = fl.valid; kept = fl.kept; waits = fl.waits } in
      let ld : length (drop w.count message) ≤ length message =
        omega (arith, length-drop w.count message) in
      let (n, en, fn, sn, st) = keep_rest-Sends c' (drop w.count message) fl' (omega arith) in
      let split : sent c' ++ drop w.count message ≡ sent c ++ message =
        past_empty c.wire (take w.count message) (drop w.count message) message (contents c.output)
          e (take-append-drop w.count message) in
      rw t (n, en, fn, sn ∙ split, st)
  | inr t ↦ rw (t, g) (keep_rest-Sends c message fl f)
]

send_loop-busy :
    (c : Connection) (message : Bytes) (w : Written)
    → is_disconnected c ≡ false
    → is_writing c.channel ≡ true
    → send_loop c message w ≡ keep_rest c message
unfolding send_loop
send_loop-busy c message w o t = rw (o, t) refl

send_loop-idle :
    (c : Connection) (message : Bytes) (w : Written)
    → is_disconnected c ≡ false
    → is_writing c.channel ≡ false
    → (readable_bytes c.output == 0) ≡ true
    → send_loop c message w ≡ send_idle c message w
unfolding send_loop
send_loop-idle c message w o t z = rw (o, t, z) refl

-- On an open connection that waits to write exactly while bytes wait, `send_loop` takes the whole
-- message, where `errno` is neither `EPIPE` nor `ECONNRESET` and the message fits the buffer: the
-- bytes taken by the kernel and those that wait are those before, with the message behind them.
pub send_loop-Sends :
    (c : Connection) (message : Bytes) (w : Written)
    → Flows c
    → is_disconnected c ≡ false
    → is_fault w.errno ≡ false
    → Fits c.output (length message)
    → Sends (send_loop c message w) c message
send_loop-Sends c message w fl o g f =
    let (er, ew, lc) = sizes fl.valid in
    elim (Bool-cases (is_writing c.channel)) [
      | inl t ↦ rw (send_loop-busy c message w o t) (keep_rest-Sends c message fl f)
      | inr t ↦
          let n : ltb 0 (readable_bytes c.output) ≡ false = sym fl.waits ∙ t in
          let z : (readable_bytes c.output == 0) ≡ true = ground arith in
          let e : contents c.output ≡ [] = empty-length (contents c.output) (ground arith) in
          rw (send_loop-idle c message w o t z) (send_idle-Sends c message w fl e g f)
    ]
