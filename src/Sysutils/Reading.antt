-- ===== src/Sysutils/Reading.antt =====
-- Sysutils.antt: reading is independent of how the bytes are cut into pieces.
use moban.Prelude.{
  ℕ, zero, suc, ◌+◌, ◌-◌, ◌≤◌, ◌≡◌, ◌↔◌, refl, sym, ap, ◌∙◌, Bool, true, false, Bool-cases, inl,
  inr, some, List, [], ◌∷◌, ◌++◌, Bytes, leb, length, take, drop, arith, take-append_ge,
  drop-append_ge, take-append_le, drop-append_le,
}
use moban.Sysutils.{
  arrived, signal, broken, Socket, put_back, readn, Selected, ready, timed_out, select_loop,
  Connecting, at_once, in_progress, connect_timeout,
}

-- All bytes that will come in, and whether no error will.
unfoldable pub bytes_of : Socket → Bytes
bytes_of [] = []
bytes_of (arrived b bs ∷ s) = (b ∷ bs) ++ bytes_of s
bytes_of (signal ∷ s) = bytes_of s
bytes_of (broken e ∷ s) = bytes_of s

unfoldable pub is_sound : Socket → Bool
is_sound [] = true
is_sound (arrived b bs ∷ s) = is_sound s
is_sound (signal ∷ s) = is_sound s
is_sound (broken e ∷ s) = false

pub put_back-bytes_of : (c : Bytes) (s : Socket) → bytes_of (put_back c s) ≡ c ++ bytes_of s
unfolding bytes_of
put_back-bytes_of [] s = refl
put_back-bytes_of (b ∷ bs) s = refl

-- `readn` fills its buffer with the next bytes, as many as it is asked for or as there are until
-- the peer closes, however they are cut into pieces and wherever a signal interrupts; what it
-- leaves are the bytes behind these.
pub readn_lem :
    (n : ℕ) (s : Socket)
    → is_sound s ≡ true
    → ((readn n s).0 ≡ some (take n (bytes_of s))) × (bytes_of (readn n s).1 ≡ drop n (bytes_of s))
unfolding readn is_sound bytes_of
readn_lem zero s h = (refl, refl)
readn_lem (suc n) [] h = (refl, refl)
readn_lem (suc n) (signal ∷ s) h = readn_lem (suc n) s h
readn_lem (suc n) (broken e ∷ s) h = absurd (ground arith)
readn_lem (suc n) (arrived b bs ∷ s) h = elim (Bool-cases (leb (length bs) n)) [
  | inl fits ↦
      let rest = readn_lem (n - length bs) s h in
      let e : n ≡ length bs + (n - length bs) = ground (arith, fits) in
      let front = take-append_ge n (n - length bs) bs (bytes_of s) e in
      let back = drop-append_ge n (n - length bs) bs (bytes_of s) e in
      rw fits (ground (arith, rest.0, front), ground (arith, rest.0, rest.1, back))
  | inr more ↦
      let within : n ≤ length bs = ground (arith, more) in
      rw more (
        ap (λ l. some (b ∷ l)) (sym (take-append_le n bs (bytes_of s) within)),
        put_back-bytes_of (drop n bs) s ∙ sym (drop-append_le n bs (bytes_of s) within),
      )
]

-- `connect_timeout` reports success exactly for a connection that was first in progress and then
-- came about; one that is there at once is reported as a timeout.
pub connect_timeout_iff :
    (wait_seconds : ℕ) (c : Connecting) (answers : List Selected) (sockopt : Bool × ℕ)
    → (((connect_timeout wait_seconds c answers sockopt).0 ≡ ready)
        ↔ ((c ≡ in_progress) × (select_loop answers ≡ ready) × (sockopt ≡ (true, 0))))
      × (c ≡ at_once → (connect_timeout wait_seconds c answers sockopt).0 ≡ timed_out)
unfolding connect_timeout
connect_timeout_iff wait_seconds c answers sockopt =
    ((λ h. (ground arith, ground arith, ground arith), λ h. ground arith), λ h. ground arith)
