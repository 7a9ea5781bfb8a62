-- ===== src/Connection/Life/Ended.antt =====
-- The steps of a connection that has ended.
use moban.Connection.Life.Invariant.{Down, Stays, not_connected, unwatched-Ended}
use moban.Connection.{
  Connection, Functor, Written, shutdown_write, connect_destroyed, is_disconnected, shutdown_loop,
  send_in_loop, write_complete, high_water_mark, shutdown_in_loop, force_close_in_loop,
}
use moban.Connection.Transfer.{
  send, shutdown, force_close, run_functor, force_close_loop, send_loop, handle_write,
}
use moban.Connection.Life.{
  UserCall, sends, shuts, forces, sets_write_complete, sets_high_water, act, run_first,
  set_write_complete_callback, set_high_water_mark_callback,
}
use moban.Connection.Life.Channels.{remove-Ended}
use moban.Connection.Life.Protocol.{silent, gone, closed, follow, heard-snoc}
use moban.Channel.{Channel, disable_all, remove}
use moban.Channel
use moban.Prelude.{refl, Bool-cases, inl, inr, some, List, [], ◌∷◌}

-- After the end only the socket's writing side may still be shut, by a functor that waited.
shut_after-Stays : (c : Connection) → Down c → Stays (some (shutdown_loop c))
unfolding shutdown_loop is_disconnected follow
shut_after-Stays c (d, p, h) = elim (Bool-cases (Channel.is_writing c.channel)) [
  | inl t ↦ rw t (c, refl, inr (d, p, h))
  | inr t ↦ rw t (
    _,
    refl,
    inr (
      d,
      p,
      elim h [
        | inl g ↦ inl (heard-snoc silent gone c.calls shutdown_write g)
        | inr g ↦ inr (heard-snoc silent closed c.calls shutdown_write g)
      ],
    ),
  )
]

Down-functor : (c : Connection) (f : Functor) (w : Written) → Down c → Stays (run_functor c f w)
unfolding run_functor force_close_loop send_loop
Down-functor c write_complete w d = (c, refl, inr d)
Down-functor c (high_water_mark n) w d = (c, refl, inr d)
Down-functor c (send_in_loop message) w d = rw d.0 (c, refl, inr d)
Down-functor c shutdown_in_loop w d = shut_after-Stays c d
Down-functor c force_close_in_loop w d = rw (not_connected c c.state d.0).1 (c, refl, inr d)

pub Down-run :
    (c : Connection) (fs : List Functor) (w : Written) → Down c → Stays (run_first c fs w)
unfolding run_first is_disconnected
Down-run c [] w d = (c, refl, inr d)
Down-run c (f ∷ fs) w (d, p, h) = Down-functor (record c { pending = fs }) f w (d, p, h)

pub Down-act : (c : Connection) (u : UserCall) → Down c → Stays (act c u)
unfolding act send shutdown force_close set_write_complete_callback set_high_water_mark_callback
    is_disconnected
Down-act c (sends in_loop message w) d = rw (not_connected c c.state d.0).0 (c, refl, inr d)
Down-act c shuts d = rw (not_connected c c.state d.0).0 (c, refl, inr d)
Down-act c forces d = rw (not_connected c c.state d.0).1 (c, refl, inr d)
Down-act c sets_write_complete (d, p, h) = (_, refl, inr (d, p, h))
Down-act c (sets_high_water n) (d, p, h) = (_, refl, inr (d, p, h))

pub Down-write : (c : Connection) (w : Written) → Down c → Stays (handle_write c w)
unfolding handle_write
Down-write c w d = rw (unwatched-Ended c.channel d.1).1 (c, refl, inr d)

pub Down-destroy : (c : Connection) → Down c → Stays (connect_destroyed c)
unfolding connect_destroyed is_disconnected
Down-destroy c (d, p, h) =
    rw ((not_connected c c.state d).0, remove-Ended c.channel p) (_, refl, inr (d, inr refl, h))
