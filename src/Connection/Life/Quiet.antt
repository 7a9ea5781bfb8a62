-- ===== src/Connection/Life/Quiet.antt =====
-- What sending does to an open connection: it stays open in its state, and no callback is called.
use moban.Connection.{
  Connection, Written, write_complete, shutdown_write, shutdown_loop, is_disconnected,
}
use moban.Connection.Transfer.{
  keep_rest, send_idle, send_loop, write_now, is_fault, drained, handle_write, is_disconnecting,
  queue_if,
}
use moban.Connection.Drain.{taken}
use moban.Connection.Life.Channels.{Opened, open_channel, open-writing, open-quiet}
use moban.Buffer.{readable_bytes, retrieve}
use moban.Channel.{is_writing, enable_writing, disable_writing}
use moban.Prelude.{
  ◌≡◌, ◌⊎◌, ◌++◌, ◌==◌, ◌&&◌, not, [], ◌∷◌, refl, ap, ◌∙◌, true, false, Bool-cases, inl, inr,
  Option, some, Bytes, length, ltb, drop,
}

-- An operation that changes neither the state nor what has been said, and keeps the channel open.
abbrev pub Quiet : Option Connection → Connection → Type 0
Quiet r c =
    (c' : Connection) × (r ≡ some c')
    × (c'.state ≡ c.state)
    × (c'.calls ≡ c.calls)
    × Opened c'.channel

keep_rest-Quiet : (c : Connection) (rest : Bytes) → Opened c.channel → Quiet (keep_rest c rest) c
unfolding keep_rest
keep_rest-Quiet c rest (w, e) = elim (Bool-cases (ltb 0 (length rest))) [
  | inr z ↦ rw z (c, refl, refl, refl, (w, e))
  | inl p ↦ elim (Bool-cases (is_writing c.channel)) [
    | inl t ↦ rw (p, t) (_, refl, refl, refl, (w, e))
    | inr t ↦
        let on : enable_writing c.channel ≡ some (open_channel true) =
          ap enable_writing e ∙ open-writing w in
        rw (p, t, on) (_, refl, refl, refl, (true, refl))
  ]
]

send_idle-Quiet :
    (c : Connection) (message : Bytes) (w : Written)
    → Opened c.channel
    → Quiet (send_idle c message w) c
unfolding send_idle write_now
send_idle-Quiet c message w o = elim (Bool-cases (ltb 0 w.count)) [
  | inl p ↦ rw p (keep_rest-Quiet (write_now c message w) (drop w.count message) o)
  | inr z ↦ elim (Bool-cases (is_fault w.errno)) [
    | inl t ↦ rw (z, t) (c, refl, refl, refl, o)
    | inr t ↦ rw (z, t) (keep_rest-Quiet c message o)
  ]
]

pub send_loop-Quiet :
    (c : Connection) (message : Bytes) (w : Written)
    → Opened c.channel
    → Quiet (send_loop c message w) c
unfolding send_loop
send_loop-Quiet c message w o = elim (Bool-cases (is_disconnected c)) [
  | inl d ↦ rw d (c, refl, refl, refl, o)
  | inr d ↦ elim (Bool-cases (not (is_writing c.channel) && readable_bytes c.output == 0)) [
    | inl t ↦ rw (d, t) (send_idle-Quiet c message w o)
    | inr t ↦ rw (d, t) (keep_rest-Quiet c message o)
  ]
]

-- The same, but the writing side of the socket may be shut.
abbrev pub Keeps : Option Connection → Connection → Type 0
Keeps r c =
    (c' : Connection) × (r ≡ some c')
    × (c'.state ≡ c.state)
    × ((c'.calls ≡ c.calls) ⊎ (c'.calls ≡ c.calls ++ shutdown_write ∷ []))
    × Opened c'.channel

pub shutdown_loop-Keeps : (c : Connection) → Opened c.channel → Keeps (some (shutdown_loop c)) c
unfolding shutdown_loop
shutdown_loop-Keeps c o = elim (Bool-cases (is_writing c.channel)) [
  | inl t ↦ rw t (c, refl, refl, inl refl, o)
  | inr t ↦ rw t (_, refl, refl, inr refl, o)
]

drained-Keeps : (c : Connection) → Opened c.channel → Keeps (drained c) c
unfolding drained
drained-Keeps c (w, e) =
    let off : disable_writing c.channel ≡ some (open_channel false) =
      ap disable_writing e ∙ open-quiet w in
    elim (Bool-cases (is_disconnecting c)) [
      | inl t ↦
          let c1 : Connection =
            queue_if c.on_write_complete (record c { channel = open_channel false })
              write_complete in
          rw (off, t) (shutdown_loop-Keeps c1 (false, refl))
      | inr t ↦ rw (off, t) (_, refl, refl, inl refl, (false, refl))
    ]

pub handle_write-Keeps :
    (c : Connection) (w : Written) → Opened c.channel → Keeps (handle_write c w) c
unfolding handle_write
handle_write-Keeps c w o = elim (Bool-cases (is_writing c.channel)) [
  | inr t ↦ rw t (c, refl, refl, inl refl, o)
  | inl t ↦ elim (Bool-cases (ltb 0 w.count)) [
    | inr p ↦ rw (t, p) (c, refl, refl, inl refl, o)
    | inl p ↦ elim (Bool-cases (readable_bytes (retrieve c.output w.count) == 0)) [
      | inl z ↦ rw (t, p, z) (drained-Keeps (taken c w) o)
      | inr z ↦ rw (t, p, z) (_, refl, refl, inl refl, o)
    ]
  ]
]
