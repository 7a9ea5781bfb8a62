-- ===== src/Connection/Life/Open.antt =====
-- The steps of a connection that is open.
use moban.Connection.Life.Invariant.{Up, Lives, Stays, same-is_open, not_disconnecting, Fails}
use moban.Connection.{
  disconnected, disconnecting, Connection, Functor, Written, connection_callback, message_callback,
  close_callback, shutdown_write, connect_destroyed, handle_close, is_open, is_disconnected,
  is_connected, call, set_state, send_in_loop, write_complete, high_water_mark, shutdown_in_loop,
  force_close_in_loop,
}
use moban.Connection.Transfer.{
  send, shutdown, force_close, handle_read, run_functor, force_close_loop,
}
use moban.Connection.Life.{
  destroys, UserCall, sends, shuts, forces, sets_write_complete, sets_high_water, act, run_first,
  set_write_complete_callback, set_high_water_mark_callback, step,
}
use moban.Connection.Life.Channels.{shut_channel, open-shut, remove-Ended, open-remove}
use moban.Connection.Life.Quiet.{Keeps, Quiet, send_loop-Quiet, shutdown_loop-Keeps}
use moban.Connection.Life.Protocol.{silent, talking, gone, follow, heard, heard-snoc}
use moban.Buffer.{ReadvResult, read_fd}
use moban.Channel.{disable_all, remove}
use moban.Prelude.{
  ◌≡◌, ◌⊎◌, refl, ap, ◌∙◌, sym, subst, Bool, Bool-cases, Option-cases, inl, inr, Option, none, some,
  List, [], ◌∷◌, ◌++◌, Bytes, ltb, true,
}

pub Up-Keeps : (c : Connection) (r : Option Connection) → Up c → Keeps r c → Stays r
unfolding follow
Up-Keeps c r (o, p, h) (c', e, s, inl k, o') =
    (c', e, inl (same-is_open c c' s o, o', ap (heard silent) k ∙ h))
Up-Keeps c r (o, p, h) (c', e, s, inr k, o') = (
  c',
  e,
  inl (
    same-is_open c c' s o,
    o',
    ap (heard silent) k ∙ heard-snoc silent talking c.calls shutdown_write h,
  ),
)

pub Up-Quiet : (c : Connection) (r : Option Connection) → Up c → Quiet r c → Stays r
Up-Quiet c r u (c', e, s, k, o') = Up-Keeps c r u (c', e, s, inl k, o')

pub handle_close-Stays : (c : Connection) → Up c → Stays (handle_close c)
unfolding handle_close is_disconnected follow
handle_close-Stays c (o, (w, p), h) =
    let off : disable_all c.channel ≡ some shut_channel = ap disable_all p ∙ open-shut w in
    let down = heard-snoc silent talking c.calls (connection_callback disconnected) h in
    rw (o, off) (_, refl, inr (refl, inl refl, inr (heard-snoc silent gone _ close_callback down)))

pub handle_read-Stays : (c : Connection) (r : ReadvResult) → Up c → Stays (handle_read c r)
unfolding handle_read call follow is_open
handle_read-Stays c r (o, p, h) =
    let c1 : Connection = record c { input = (read_fd c.input r).0 } in
    elim (Option-cases (read_fd c.input r).1) [
      | inl e ↦ rw (e, handle_read) (c1, refl, inl (o, p, h))
      | inr (k, e) ↦ elim (Bool-cases (ltb 0 k)) [
        | inl m ↦
            rw (e, handle_read, m)
              (_, refl, inl (o, p, heard-snoc silent talking c.calls message_callback h))
        | inr m ↦ rw (e, handle_read, m) (handle_close-Stays c1 (o, p, h))
      ]
    ]

queue-Stays : (c : Connection) (p : List Functor) → Up c → Lives (record c { pending = p })
unfolding is_open
queue-Stays c p (o, q, h) = inl (o, q, h)

send-Stays :
    (c : Connection) (in_loop : Bool) (message : Bytes) (w : Written)
    → Up c
    → Stays (send in_loop c message w)
unfolding send
send-Stays c in_loop message w u = elim (Bool-cases (is_connected c)) [
  | inr t ↦ rw t (c, refl, inl u)
  | inl t ↦ elim (Bool-cases in_loop) [
    | inl b ↦ rw (t, b) (Up-Quiet c _ u (send_loop-Quiet c message w u.1))
    | inr b ↦ rw (t, b) (_, refl, queue-Stays c _ u)
  ]
]

disconnecting-Up : (c : Connection) → Up c → Up (set_state c disconnecting)
unfolding set_state is_open
disconnecting-Up c (o, p, h) = (refl, p, h)

shutdown-Stays : (c : Connection) (in_loop : Bool) → Up c → Stays (some (shutdown in_loop c))
unfolding shutdown
shutdown-Stays c in_loop u =
    let c' = set_state c disconnecting in
    let u' = disconnecting-Up c u in
    elim (Bool-cases (is_connected c)) [
      | inr t ↦ rw t (c, refl, inl u)
      | inl t ↦ elim (Bool-cases in_loop) [
        | inl b ↦ rw (t, b) (Up-Keeps c' _ u' (shutdown_loop-Keeps c' u'.1))
        | inr b ↦ rw (t, b) (_, refl, queue-Stays c' _ u')
      ]
    ]

functor-Stays : (c : Connection) (f : Functor) (w : Written) → Up c → Stays (run_functor c f w)
unfolding run_functor force_close_loop
functor-Stays c write_complete w u = (c, refl, inl u)
functor-Stays c (high_water_mark n) w u = (c, refl, inl u)
functor-Stays c (send_in_loop message) w u = Up-Quiet c _ u (send_loop-Quiet c message w u.1)
functor-Stays c shutdown_in_loop w u = Up-Keeps c _ u (shutdown_loop-Keeps c u.1)
functor-Stays c force_close_in_loop w u =
    let same : force_close_loop c ≡ handle_close c = rw u.0 refl in
    subst Stays (sym same) (handle_close-Stays c u)

pub run-Stays : (c : Connection) (fs : List Functor) (w : Written) → Up c → Stays (run_first c fs w)
unfolding run_first is_open
run-Stays c [] w u = (c, refl, inl u)
run-Stays c (f ∷ fs) w (o, p, h) = functor-Stays (record c { pending = fs }) f w (o, p, h)

pub destroy-Up : (c : Connection) → Up c → Stays (step c destroys) ⊎ Fails c destroys
unfolding step connect_destroyed is_disconnected follow
destroy-Up c (o, (w, p), h) = elim (not_disconnecting c c.state o) [
  | inl t ↦
      let off : disable_all c.channel ≡ some shut_channel = ap disable_all p ∙ open-shut w in
      let away = remove-Ended shut_channel (inl refl) in
      let down = heard-snoc silent talking c.calls (connection_callback disconnected) h in
      inl (rw (t, off, away) (_, refl, inr (refl, inr refl, inl down)))
  | inr (t, s) ↦
      let stuck : remove c.channel ≡ none = ap remove p ∙ open-remove w in
      inr (refl, s, rw (t, stuck) refl)
]

pub act-Stays : (c : Connection) (u : UserCall) → Up c → Stays (act c u)
unfolding act force_close set_write_complete_callback set_high_water_mark_callback is_open
act-Stays c (sends in_loop message w) u = send-Stays c in_loop message w u
act-Stays c shuts u = shutdown-Stays c true u
act-Stays c forces u = rw u.0 (
  _,
  refl,
  queue-Stays (set_state c disconnecting) (c.pending ++ force_close_in_loop ∷ [])
      (disconnecting-Up c u),
)
act-Stays c sets_write_complete (o, p, h) = (_, refl, inl (o, p, h))
act-Stays c (sets_high_water n) (o, p, h) = (_, refl, inl (o, p, h))
