-- ===== src/Connection/Histories.antt =====
-- A connection over time: sends and writable events, in any order.
use moban.Connection.{Connection, Written, is_disconnected}
use moban.Connection.Transfer.{send_loop, handle_write, is_fault}
use moban.Connection.Stream.{sent, Flows, send_loop-Sends}
use moban.Connection.Drain.{handle_write-Flows}
use moban.Buffer.{readable_bytes}
use moban.Buffer.Layout.{Fits}
use moban.Prelude.{
  ◌≤◌, ◌≡◌, refl, ap, sym, ◌∙◌, false, Bytes, Option, some, List, [], ◌∷◌, ◌++◌, length,
  append_assoc, append-nil, ◌>>=◌,
}

-- A message is sent, or the socket can be written, with the answer of `::write`.
pub data Action : Type 0 where
  sending : Bytes → Written → Action
  writable : Written → Action

unfoldable pub act : Connection → Action → Option Connection
unfolding send_loop handle_write
act c (sending message w) = send_loop c message w
act c (writable w) = handle_write c w

unfoldable pub run : Connection → List Action → Option Connection
unfolding act
run c [] = some c
run c (a ∷ as') = do c' ← act c a; run c' as'

-- The messages of the actions, one behind the other.
unfoldable pub messages : List Action → Bytes
messages [] = []
messages (sending message w ∷ as') = message ++ messages as'
messages (writable w ∷ as') = messages as'

-- Each write takes no more than it is given, without a fault, and each message fits.
abbrev pub Possible : Connection → Action → Type 0
Possible c (sending message w) = (is_fault w.errno ≡ false) × Fits c.output (length message)
Possible c (writable w) = w.count ≤ readable_bytes c.output

-- Every action is possible in the state that those before it leave.
abbrev pub Smooth : Connection → List Action → Type 0
Smooth c [] = Unit
Smooth c (a ∷ as') = Possible c a × ((c' : Connection) → act c a ≡ some c' → Smooth c' as')

-- A run: what is sent grows by the messages, and the connection stays open.
abbrev pub Delivers : Option Connection → Connection → Bytes → Type 0
Delivers r c d =
    (c' : Connection) × (r ≡ some c')
    × Flows c'
    × (sent c' ≡ sent c ++ d)
    × (is_disconnected c' ≡ false)

same_state :
    (c c' : Connection)
    → c'.state ≡ c.state
    → is_disconnected c ≡ false
    → is_disconnected c' ≡ false
unfolding is_disconnected
same_state c c' e o = ap (λ s. is_disconnected (record c { state = s })) e ∙ o

act-Delivers :
    (c : Connection) (a : Action)
    → Flows c
    → is_disconnected c ≡ false
    → Possible c a
    → Delivers (act c a) c (messages (a ∷ []))
unfolding act messages
act-Delivers c (sending message w) fl o (g, f) =
    let (c', e, fl', s, st) = send_loop-Sends c message w fl o g f in
    (c', e, fl', s ∙ ap (λ t. sent c ++ t) (sym (append-nil message)), same_state c c' st o)
act-Delivers c (writable w) fl o h =
    let (c', e, fl', s, k, st) = handle_write-Flows c w fl h in
    (c', e, fl', s ∙ sym (append-nil (sent c)), same_state c c' st o)

messages-cons :
    (a : Action) (as' : List Action) → messages (a ∷ as') ≡ messages (a ∷ []) ++ messages as'
unfolding messages
messages-cons (sending message w) as' = ap (λ t. t ++ messages as') (sym (append-nil message))
messages-cons (writable w) as' = refl

-- However the kernel splits its writes, after any sequence of sends and writable events the bytes
-- taken by the kernel, with those that wait, are the messages in the order they were sent, and the
-- channel waits to write exactly while bytes wait. No write is a fault, and the messages fit.
pub run-Delivers :
    (c : Connection) (as' : List Action)
    → Flows c
    → is_disconnected c ≡ false
    → Smooth c as'
    → Delivers (run c as') c (messages as')
unfolding run messages
run-Delivers c [] fl o p = (c, refl, fl, sym (append-nil (sent c)), o)
run-Delivers c (a ∷ as') fl o (p, q) =
    let (c1, e1, fl1, s1, o1) = act-Delivers c a fl o p in
    let (c2, e2, fl2, s2, o2) = run-Delivers c1 as' fl1 o1 (q c1 e1) in
    (
      c2,
      ap (λ r. r >>= λ c'. run c' as') e1 ∙ e2,
      fl2,
      s2
          ∙ ap (λ t. t ++ messages as') s1
          ∙ append_assoc (sent c) (messages (a ∷ [])) (messages as')
          ∙ ap (λ t. sent c ++ t) (sym (messages-cons a as')),
      o2,
    )
