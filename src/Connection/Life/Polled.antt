-- ===== src/Connection/Life/Polled.antt =====
-- One event of the poller: the callbacks of the channel, one after the other.
use moban.Connection.{Connection, Written, handle_close}
use moban.Connection.Transfer.{handle_write}
use moban.Connection.Life.{
  Event, polled, runs, calls, destroys, UserCall, act, act_all, dispatch, reported, step,
}
use moban.Connection.Life.Invariant.{Up, Lives, Stays, Fails, unwatched-Ended}
use moban.Connection.Life.Open.{
  act-Stays, handle_close-Stays, handle_read-Stays, run-Stays, destroy-Up, Up-Keeps,
}
use moban.Connection.Life.Quiet.{handle_write-Keeps}
use moban.Connection.Life.Ended.{Down-act, Down-write, Down-run, Down-destroy}
use moban.Buffer.{ReadvResult}
use moban.Channel.{
  Ready, Callback, close_callback, error_callback, read_callback, write_callback, when,
  handle_event, Events,
}
use moban.Prelude.{
  ◌≡◌, ◌⊎◌, refl, ap, Bool, true, false, not, ◌&&◌, ◌||◌, Bool-cases, inl, inr, Option, none, some,
  List, [], ◌∷◌, ◌++◌, arith, ◌>>=◌, if◌then◌else◌,
}

-- epoll reports no urgent data with a hang-up of a socket that cannot be read.
abbrev pub Plain : Event → Type 0
Plain (polled b r w us) = (b.pollhup && (not b.pollin && b.pollpri)) ≡ false
Plain (runs w) = Unit
Plain (calls u) = Unit
Plain destroys = Unit

either-act : (c : Connection) (u : UserCall) → Lives c → Stays (act c u)
either-act c u (inl l) = act-Stays c u l
either-act c u (inr l) = Down-act c u l

act_all-Stays : (c : Connection) (us : List UserCall) → Lives c → Stays (act_all c us)
unfolding act_all
act_all-Stays c [] l = (c, refl, l)
act_all-Stays c (u ∷ us) l = let (c', e, l') = either-act c u l in rw e (act_all-Stays c' us l')

either-write : (c : Connection) (w : Written) → Lives c → Stays (handle_write c w)
either-write c w (inl u) = Up-Keeps c _ u (handle_write-Keeps c w u.1)
either-write c w (inr d) = Down-write c w d

no_rdhup : (m : Option Events) (b : Ready) → reported m b ≡ true → b.pollrdhup ≡ false
unfolding reported
no_rdhup none b h = absurd (cc)
no_rdhup (some e) b h = ground arith

urgent_only :
    (b : Ready)
    → b.pollrdhup ≡ false
    → (b.pollhup && not b.pollin) ≡ true
    → (b.pollhup && (not b.pollin && b.pollpri)) ≡ false
    → (b.pollin || (b.pollpri || b.pollrdhup)) ≡ false
urgent_only b n t p = ground arith

module _ (r : ReadvResult) (w : Written) (us : List UserCall) where
  write_last :
      (b : Bool) (c : Connection) → Lives c → Stays (dispatch (when b write_callback) c r w us)
  unfolding dispatch when
  write_last false c l = (c, refl, l)
  write_last true c l = let (c', e, l') = either-write c w l in rw e (c', refl, l')

  read_then_write :
      (b d : Bool) (c : Connection)
      → Up c
      → Stays (dispatch (when b read_callback ++ when d write_callback) c r w us)
  unfolding dispatch when
  read_then_write false d c u = write_last d c (inl u)
  read_then_write true d c u =
      let (c1, e1, l1) = handle_read-Stays c r u in
      let (c2, e2, l2) = act_all-Stays c1 us l1 in rw (e1, e2) (write_last d c2 l2)

  error_first :
      (b : Bool) (ks : List Callback) (c : Connection)
      → dispatch (when b error_callback ++ ks) c r w us ≡ dispatch ks c r w us
  unfolding dispatch when
  error_first false ks c = refl
  error_first true ks c = refl

  close_first :
      (b : Bool) (ks : List Callback) (c : Connection)
      → dispatch (when b close_callback ++ ks) c r w us
        ≡ (if b then (handle_close c >>= λ c'. dispatch ks c' r w us) else dispatch ks c r w us)
  unfolding dispatch when
  close_first false ks c = refl
  close_first true ks c = refl

  open-dispatch :
      (c : Connection) (b : Ready)
      → Up c
      → reported c.channel.watched b ≡ true
      → (b.pollhup && (not b.pollin && b.pollpri)) ≡ false
      → Stays (dispatch (handle_event true true b) c r w us)
  unfolding handle_event
  open-dispatch c b u h p =
      let err = b.pollerr || b.pollnval in
      let rd = b.pollin || (b.pollpri || b.pollrdhup) in
      let rest = when rd read_callback ++ when b.pollout write_callback in
      elim (Bool-cases (b.pollhup && not b.pollin)) [
        | inl t ↦
            let no : rd ≡ false = urgent_only b (no_rdhup c.channel.watched b h) t p in
            let (c', e, l) = handle_close-Stays c u in
            rw
              (
                close_first (b.pollhup && not b.pollin) (when err error_callback ++ rest) c,
                t,
                e,
                error_first err rest c',
                no,
              )
              (write_last b.pollout c' l)
        | inr t ↦
            rw
              (
                close_first (b.pollhup && not b.pollin) (when err error_callback ++ rest) c,
                t,
                error_first err rest c,
              )
              (read_then_write rd b.pollout c u)
      ]

polled-Stays :
    (c : Connection) (b : Ready) (r : ReadvResult) (w : Written) (us : List UserCall)
    → Lives c
    → Plain (polled b r w us)
    → Stays (step c (polled b r w us))
unfolding step reported
polled-Stays c b r w us (inl u) p = elim (Bool-cases (reported c.channel.watched b)) [
  | inl h ↦ rw h (open-dispatch r w us c b u h p)
  | inr h ↦ rw h (c, refl, inl u)
]
polled-Stays c b r w us (inr d) p =
    let unseen : reported c.channel.watched b ≡ false =
      ap (λ m. reported m b) (unwatched-Ended c.channel d.1).0 in
    rw unseen (c, refl, inr d)

pub either-step : (c : Connection) (e : Event) → Lives c → Plain e → Stays (step c e) ⊎ Fails c e
unfolding step
either-step c (polled b r w us) l p = inl (polled-Stays c b r w us l p)
either-step c (runs w) (inl u) p = inl (run-Stays c c.pending w u)
either-step c (runs w) (inr d) p = inl (Down-run c c.pending w d)
either-step c (calls u) l p = inl (either-act c u l)
either-step c destroys (inl u) p = destroy-Up c u
either-step c destroys (inr d) p = inl (Down-destroy c d)
