-- ===== src/Connection/Drain.antt =====
-- The output buffer of a connection is emptied in order, and the socket shut only then.
use moban.Connection.{Written, Connection, Call, shutdown_write}
use moban.Connection.Transfer.{handle_write, drained, is_disconnecting}
use moban.Buffer.{retrieve, readable_bytes}
use moban.Buffer.Layout.{IsValid, contents, sizes}
use moban.Buffer.Contents.{retrieve_lem}
use moban.Channel.{is_writing}
use moban.Channel.Watching.{Kept, disable_writing-Kept}
use moban.Prelude.{
  ◌-◌, ◌≤◌, ◌≡◌, refl, ap, sym, ◌∙◌, true, false, Option, some, List, [], ◌∷◌, ◌++◌, length, take,
  drop, arith, Bool-cases, inl, inr, append_assoc, take-append-drop, ltb, ◌==◌, append-nil,
  length-drop, if◌then◌else◌, ◌&&◌,
}
use moban.Connection.Stream.{sent, Flows}

-- What `handle_write` leaves of the output buffer, before it looks whether it is empty.
module _ (c : Connection) (w : Written) where
  abbrev pub taken : Connection
  taken = record c {
    output = retrieve c.output w.count;
    wire = c.wire ++ take w.count (contents c.output);
  }

  taken-sent :
      IsValid c.output
      → w.count ≤ readable_bytes c.output
      → IsValid taken.output × (sent taken ≡ sent c)
  taken-sent v h =
      let (v', e) = retrieve_lem c.output w.count v h in
      (
        v',
        ap (λ t. (c.wire ++ take w.count (contents c.output)) ++ t) e
            ∙ append_assoc c.wire (take w.count (contents c.output))
                (drop w.count (contents c.output))
            ∙ ap (λ t. c.wire ++ t) (take-append-drop w.count (contents c.output)),
      )

-- An emptied buffer: the socket's writing side is shut where that was asked for before.
abbrev pub shut_after : Connection → List Call
shut_after c = if is_disconnecting c then shutdown_write ∷ [] else []

-- A run of `handle_write` that empties the buffer.
abbrev Drains : Option Connection → Connection → Type 0
Drains r c =
    (c' : Connection) × (r ≡ some c')
    × Flows c'
    × (sent c' ≡ sent c)
    × (c'.calls ≡ c.calls ++ shut_after c)
    × (c'.state ≡ c.state)

drained-Drains :
    (c : Connection)
    → IsValid c.output
    → Kept c.channel
    → (readable_bytes c.output == 0) ≡ true
    → Drains (drained c) c
unfolding drained
drained-Drains c v k e =
    let (ch, ec, kc, wc) = disable_writing-Kept c.channel k in
    let n : ltb 0 (readable_bytes c.output) ≡ false = ground arith in
    elim (Bool-cases (is_disconnecting c)) [
      | inl t ↦
          rw (ec, t, wc)
            (_, refl, record { valid = v; kept = kc; waits = wc ∙ sym n }, refl, refl, refl)
      | inr t ↦
          rw (ec, t)
            (
              _,
              refl,
              record { valid = v; kept = kc; waits = wc ∙ sym n },
              refl,
              sym (append-nil c.calls),
              refl,
            )
    ]

-- The three ways of `handle_write`.
handle_write-kept :
    (c : Connection) (w : Written)
    → (is_writing c.channel && ltb 0 w.count) ≡ false
    → handle_write c w ≡ some c
unfolding handle_write
handle_write-kept c w e = elim (Bool-cases (is_writing c.channel)) [
  | inl t ↦ rw (t, rw t at e) refl
  | inr t ↦ rw t refl
]

handle_write-part :
    (c : Connection) (w : Written)
    → is_writing c.channel ≡ true
    → ltb 0 w.count ≡ true
    → (readable_bytes (retrieve c.output w.count) == 0) ≡ false
    → handle_write c w ≡ some (taken c w)
unfolding handle_write
handle_write-part c w t p z = rw (t, p, z) refl

handle_write-all :
    (c : Connection) (w : Written)
    → is_writing c.channel ≡ true
    → ltb 0 w.count ≡ true
    → (readable_bytes (retrieve c.output w.count) == 0) ≡ true
    → handle_write c w ≡ drained (taken c w)
unfolding handle_write
handle_write-all c w t p z = rw (t, p, z) refl

retrieve-length :
    (c : Connection) (w : Written)
    → IsValid c.output
    → w.count ≤ readable_bytes c.output
    → readable_bytes (retrieve c.output w.count) ≡ readable_bytes c.output - w.count
retrieve-length c w v h =
    let (v', e) = retrieve_lem c.output w.count v h in
    let (er, ew, lc) = sizes v in
    let (er', ew', lc') = sizes v' in
    let l = ap length e ∙ length-drop w.count (contents c.output) in omega arith

-- On a connection that waits to write exactly while bytes wait, and with a `::write` that takes no
-- more than it is given, `handle_write` succeeds and keeps that: what has been sent stays, and the
-- socket is shut exactly where the buffer is emptied of a connection that is disconnecting.
pub handle_write-Flows :
    (c : Connection) (w : Written)
    → Flows c
    → w.count ≤ readable_bytes c.output
    → (c' : Connection) × (handle_write c w ≡ some c')
      × Flows c'
      × (sent c' ≡ sent c)
      × (c'.calls
          ≡ c.calls
            ++ (if is_writing c.channel && readable_bytes c.output == w.count
                then shut_after c
                else []))
      × (c'.state ≡ c.state)
unfolding is_disconnecting
handle_write-Flows c w fl h =
    let l = retrieve-length c w fl.valid h in
    elim (Bool-cases (is_writing c.channel)) [
      | inl t ↦
          let (v, e) = taken-sent c w fl.valid h in
          elim (Bool-cases (ltb 0 w.count)) [
            | inl p ↦ elim (Bool-cases (readable_bytes (retrieve c.output w.count) == 0)) [
              | inl z ↦
                  let (c', ec, fc, sc, kc, st) = drained-Drains (taken c w) v fl.kept z in
                  let q : (readable_bytes c.output == w.count) ≡ true = ground arith in
                  rw (t, q) (c', handle_write-all c w t p z ∙ ec, fc, sc ∙ e, kc, st)
              | inr z ↦
                  let q : (readable_bytes c.output == w.count) ≡ false = ground arith in
                  let m : ltb 0 (readable_bytes (retrieve c.output w.count)) ≡ true =
                    ground arith in
                  let f : Flows (taken c w) = record {
                    valid = v;
                    kept = fl.kept;
                    waits = t ∙ sym m;
                  } in
                  rw (t, q)
                    (taken c w, handle_write-part c w t p z, f, e, sym (append-nil c.calls), refl)
            ]
            | inr p ↦
                let q : (readable_bytes c.output == w.count) ≡ false =
                  (let k : ltb 0 (readable_bytes c.output) ≡ true = sym fl.waits ∙ t in
                    ground arith) in
                let n : (is_writing c.channel && ltb 0 w.count) ≡ false = rw (t, p) refl in
                rw (t, q) (c, handle_write-kept c w n, fl, refl, sym (append-nil c.calls), refl)
          ]
      | inr t ↦
          let n : (is_writing c.channel && ltb 0 w.count) ≡ false = rw t refl in
          rw t (c, handle_write-kept c w n, fl, refl, sym (append-nil c.calls), refl)
    ]
