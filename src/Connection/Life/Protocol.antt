-- ===== src/Connection/Life/Protocol.antt =====
-- The order in which a connection calls its user and its owner.
use moban.Connection.{
  connected, disconnected, Call, connection_callback, message_callback, close_callback,
  shutdown_write,
}
use moban.Prelude.{
  ◌≡◌, refl, Option, none, some, List, [], ◌∷◌, ◌++◌, ◌>>=◌, Option-cases, inl, inr, arith, ap, ◌∙◌,
}

-- Nothing has been said; the user was told that the connection is up; that it is down; and the owner
-- was told to let it go.
pub data Stage : Type 0 where
  silent : Stage
  talking : Stage
  gone : Stage
  closed : Stage

unfoldable pub follow : Stage → Call → Option Stage
follow silent (connection_callback connected) = some talking
follow talking message_callback = some talking
follow talking (connection_callback disconnected) = some gone
follow gone close_callback = some closed
follow talking shutdown_write = some talking
follow gone shutdown_write = some gone
follow closed shutdown_write = some closed
follow s k = none

unfoldable pub heard : Stage → List Call → Option Stage
unfolding follow
heard s [] = some s
heard s (k ∷ ks) = do t ← follow s k; heard t ks

bind_some : (o : Option Stage) → (o >>= some) ≡ o
bind_some none = refl
bind_some (some t) = refl

pub heard-snoc :
    (s t : Stage) (ks : List Call) (k : Call)
    → heard s ks ≡ some t
    → heard s (ks ++ k ∷ []) ≡ follow t k
unfolding heard
heard-snoc s t [] k h = bind_some (follow s k) ∙ ap (λ u. follow u k) (ground arith)
heard-snoc s t (x ∷ ks) k h = elim (Option-cases (follow s x)) [
  | inl e ↦ absurd (ground (arith, e))
  | inr (u, e) ↦ rw e (heard-snoc u t ks k (rw e at h))
]
