-- ===== src/Connector/Laws.antt =====
-- Connector.antt: no socket is lost or closed twice, and the retries slow down to a bound.
use moban.Prelude.{
  ℕ, zero, suc, ◌+◌, ◌-◌, ◌*◌, ◌^◌, ◌≤◌, ◌==◌, min, ◌≡◌, refl, Bool, true, false, Option,
  Option-cases, Bool-cases, inl, inr, none, some, List, [], ◌∷◌, ◌>>=◌, if◌then◌else◌, arith, subst,
}
use moban.Connector.{
  disconnected, connecting_state, Connector, create, next_delay, do_connect, start_in_loop, start,
  restart, reset_channel, stop, handle_write, handle_error, init_retry_delay_ms,
}

-- What the loop and the owner can do; the poller reports events of a watched socket only.
pub data Event : Type 0 where
  starts : (sockfd save_error : ℕ) → Event
  restarts : (sockfd save_error : ℕ) → Event
  stops : Event
  writable : ℕ → Bool → Event
  fails : Event
  fires : (sockfd save_error : ℕ) → Event
  resets_channel : Event

unfoldable pub step : Connector → Event → Option Connector
unfolding start restart stop handle_write handle_error start_in_loop reset_channel
step c (starts sockfd save_error) = start c sockfd save_error
step c (restarts sockfd save_error) = restart c sockfd save_error
step c stops = stop c
step c (writable so_error is_self) = if c.watched then handle_write c so_error is_self else some c
step c fails = if c.watched then handle_error c else some c
step c (fires sockfd save_error) =
    if c.timers == 0
    then some c
    else start_in_loop record c { timers = c.timers - 1 } sockfd save_error
step c resets_channel = some (if c.resets == 0 then c else reset_channel c)

unfoldable pub execute : Connector → List Event → Option Connector
unfolding step
execute c [] = some c
execute c (e ∷ es) = do d ← step c e; execute d es

-- How often a socket stands in a list.
unfoldable pub count : ℕ → List ℕ → ℕ
count x [] = 0
count x (y ∷ ys) = (if x == y then 1 else 0) + count x ys

-- The socket that is being connected.
abbrev pub underway_fd : Bool → Option ℕ → ℕ → ℕ
underway_fd true (some fd) x = if x == fd then 1 else 0
underway_fd true none x = 0
underway_fd false channel x = 0

abbrev pub bit : Bool → ℕ
bit true = 1
bit false = 0

abbrev pub has : Option ℕ → ℕ
has none = 0
has (some fd) = 1

pub record IsValid (c : Connector) : Type 0 where
  -- Every socket is closed, handed over, or being connected.
  pub conserved :
      (x : ℕ)
      → count x c.created ≡ count x c.closed + count x c.handed + underway_fd c.watched c.channel x
  -- A channel is watched, or will be reset once.
  pub channelled : has c.channel ≡ bit c.watched + c.resets
  pub underway : c.state ≡ connecting_state → c.watched ≡ true
  pub patient : 500 ≤ c.retry_delay_ms
  pub bounded : c.retry_delay_ms ≤ 30000

pub create-IsValid : IsValid create
unfolding create count
create-IsValid = record {
  conserved = λ x. refl;
  channelled = refl;
  underway = λ h. absurd cc;
  patient = omega arith;
  bounded = omega arith;
}

do_connect-IsValid :
    (c d : Connector) (fd e : ℕ)
    → IsValid c
    → c.state ≡ disconnected
    → do_connect c fd e ≡ some d
    → IsValid d
unfolding do_connect count
do_connect-IsValid c d fd e v s h = record {
  conserved = λ x. ground (arith, v.conserved x, v.channelled);
  channelled = ground (arith, v.channelled);
  underway = λ k. ground (arith, v.underway);
  patient = ground (arith, v.patient);
  bounded = ground (arith, v.bounded);
}

start_in_loop-IsValid :
    (c d : Connector) (fd e : ℕ) → IsValid c → start_in_loop c fd e ≡ some d → IsValid d
unfolding start_in_loop
start_in_loop-IsValid c d fd e v h =
    let off : c.state ≡ disconnected = ground arith in
    elim (Bool-cases c.connect) [
      | inl on ↦ do_connect-IsValid c d fd e v off (ground (arith, on, off))
      | inr idle ↦ subst IsValid (ground (arith, idle, off)) v
    ]

stop-IsValid : (c d : Connector) → IsValid c → stop c ≡ some d → IsValid d
unfolding stop count
stop-IsValid c d v h = record {
  conserved = λ x. ground (arith, v.conserved x, v.underway, v.channelled);
  channelled = ground (arith, v.channelled, v.underway);
  underway = λ k. ground (arith, v.underway);
  patient = ground (arith, v.patient);
  bounded = ground (arith, v.bounded);
}

handle_write-IsValid :
    (c d : Connector) (so_error : ℕ) (is_self : Bool)
    → IsValid c
    → c.watched ≡ true
    → handle_write c so_error is_self ≡ some d
    → IsValid d
unfolding handle_write count
handle_write-IsValid c d so_error is_self v w h = record {
  conserved = λ x. ground (arith, w, v.conserved x, v.channelled);
  channelled = ground (arith, w, v.channelled);
  underway = λ k. ground (arith, w, v.underway);
  patient = ground (arith, v.patient);
  bounded = ground (arith, v.bounded);
}

handle_error-IsValid :
    (c d : Connector) → IsValid c → c.watched ≡ true → handle_error c ≡ some d → IsValid d
unfolding handle_error count
handle_error-IsValid c d v w h = record {
  conserved = λ x. ground (arith, w, v.conserved x, v.channelled);
  channelled = ground (arith, w, v.channelled);
  underway = λ k. ground (arith, w, v.underway);
  patient = ground (arith, v.patient);
  bounded = ground (arith, v.bounded);
}

-- The fields that the first steps of a call set are free.
with-IsValid :
    {c : Connector} (b : Bool) (n : ℕ) → IsValid c → IsValid (record c { connect = b; timers = n })
with-IsValid b n v = record {
  conserved = v.conserved;
  channelled = v.channelled;
  underway = v.underway;
  patient = v.patient;
  bounded = v.bounded;
}

step-IsValid : (c d : Connector) (e : Event) → IsValid c → step c e ≡ some d → IsValid d
unfolding step start restart reset_channel count
step-IsValid c d (starts fd e) v h = elim (Bool-cases c.connect) [
  | inl on ↦ subst IsValid (ground (arith, on)) v
  | inr idle ↦
      start_in_loop-IsValid record c { connect = true } d fd e (with-IsValid true c.timers v)
        (ground (arith, idle))
]
step-IsValid c d (restarts fd e) v h =
    start_in_loop-IsValid
      record c { state = disconnected; retry_delay_ms = init_retry_delay_ms; connect = true } d fd e
      record {
        conserved = v.conserved;
        channelled = v.channelled;
        underway = λ k. absurd cc;
        patient = omega arith;
        bounded = omega arith;
      }
      h
step-IsValid c d stops v h = stop-IsValid c d v h
step-IsValid c d (writable so_error is_self) v h = elim (Bool-cases c.watched) [
  | inl w ↦ handle_write-IsValid c d so_error is_self v w (ground (arith, w))
  | inr w ↦ subst IsValid (ground (arith, w)) v
]
step-IsValid c d fails v h = elim (Bool-cases c.watched) [
  | inl w ↦ handle_error-IsValid c d v w (ground (arith, w))
  | inr w ↦ subst IsValid (ground (arith, w)) v
]
step-IsValid c d (fires fd e) v h = elim (Bool-cases (c.timers == 0)) [
  | inl w ↦ subst IsValid (ground (arith, w)) v
  | inr w ↦
      start_in_loop-IsValid record c { timers = c.timers - 1 } d fd e
        (with-IsValid c.connect (c.timers - 1) v) (ground (arith, w))
]
step-IsValid c d resets_channel v h = elim (Bool-cases (c.resets == 0)) [
  | inl w ↦ subst IsValid (ground (arith, w)) v
  | inr w ↦ record {
    conserved = λ x. ground (arith, v.conserved x);
    channelled = ground (arith, w, v.channelled);
    underway = λ k. ground (arith, v.underway);
    patient = ground (arith, v.patient);
    bounded = ground (arith, v.bounded);
  }
]

-- However connecting, failing, stopping and retrying come after one another, as long as no assertion
-- fails: each socket was created as often as it was closed, handed over and is the one being connected
-- together; a connector that is connecting has its socket watched; and the delay of the next retry stays
-- between 0.5 and 30 seconds.
pub execute-Conserved :
    (c d : Connector) (es : List Event) → IsValid c → execute c es ≡ some d → IsValid d
unfolding execute
execute-Conserved c d [] v h = subst IsValid (ground arith) v
execute-Conserved c d (e ∷ es) v h = elim (Option-cases (step c e)) [
  | inl bad ↦ absurd (ground (arith, bad))
  | inr (m, good) ↦ execute-Conserved m d es (step-IsValid c m e v good) (ground (arith, good))
]

-- The delay after a number of refused attempts.
unfoldable pub delay_after : ℕ → ℕ
delay_after zero = init_retry_delay_ms
delay_after (suc k) = next_delay (delay_after k)

-- The delay of the next retry doubles with every refused attempt, from half a second to at most
-- thirty seconds.
pub delay_after_lem : (k : ℕ) → delay_after k ≡ min (500 * 2 ^ k) 30000
unfolding delay_after next_delay
delay_after_lem zero = omega arith
delay_after_lem (suc k) = ground (arith, delay_after_lem k)

-- A retry that waits when the connector is stopped and started again finds it connecting, and its
-- assertion fails.
pub late_retry :
    (first second third save_error : ℕ)
    → execute create (starts first 111 ∷ stops ∷ starts second 115 ∷ fires third save_error ∷ [])
      ≡ none
unfolding execute create
late_retry first second third save_error = refl

-- A connector that is stopped while it connects and started again before the loop has run its
-- `resetChannel` fails the assertion that it has no channel, if the new attempt is under way.
pub early_start :
    (first second : ℕ) → execute create (starts first 115 ∷ stops ∷ starts second 115 ∷ []) ≡ none
unfolding execute create
early_start first second = refl
