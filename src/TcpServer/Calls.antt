-- ===== src/TcpServer/Calls.antt =====
-- The calls that a server makes for the connections of one name, and how far they have come.
use moban.TcpServer.{
  TcpConnection, Call, connect_established, connect_destroyed, at, without, entry,
}
use moban.TcpServer.Names.{equals}
use moban.Prelude.{
  ℕ, zero, suc, ◌≤◌, ◌<◌, ◌≡◌, ◌≢◌, refl, ap, ◌∙◌, true, false, Bool-cases, inl, inr, some, List,
  [], ◌∷◌, ◌++◌, map, Bytes, arith, if◌then◌else◌, append-nil,
}

abbrev subject : Call → TcpConnection
subject (connect_established c) = c
subject (connect_destroyed c) = c

-- The calls for the connections with a name.
unfoldable pub of : Bytes → List Call → List Call
of key [] = []
of key (k ∷ ks) = let rest = of key ks in if equals key (subject k).name then k ∷ rest else rest

-- The connections with a name.
unfoldable pub named : Bytes → List TcpConnection → List TcpConnection
named key [] = []
named key (c ∷ cs) = let rest = named key cs in if equals key c.name then c ∷ rest else rest

pub of-append : (key : Bytes) (xs ys : List Call) → of key (xs ++ ys) ≡ of key xs ++ of key ys
unfolding of
of-append key [] ys = refl
of-append key (x ∷ xs) ys = elim (Bool-cases (equals key (subject x).name)) [
  | inl t ↦ rw t (ap (λ r. x ∷ r) (of-append key xs ys))
  | inr t ↦ rw t (of-append key xs ys)
]

pub of-other :
    (key : Bytes) (xs : List Call) (k : Call)
    → equals key (subject k).name ≡ false
    → of key (xs ++ k ∷ []) ≡ of key xs
unfolding of
of-other key xs k h = of-append key xs (k ∷ []) ∙ rw h (append-nil (of key xs))

pub of-same :
    (key : Bytes) (xs : List Call) (k : Call)
    → equals key (subject k).name ≡ true
    → of key (xs ++ k ∷ []) ≡ of key xs ++ k ∷ []
unfolding of
of-same key xs k h = of-append key xs (k ∷ []) ∙ rw h refl

pub of-destroyed :
    (key : Bytes) (vs : List (Bytes × TcpConnection))
    → of key (map (λ v. connect_destroyed v.1) vs)
      ≡ map connect_destroyed (named key (map (λ v. v.1) vs))
unfolding of named
of-destroyed key [] = refl
of-destroyed key (v ∷ vs) = elim (Bool-cases (equals key v.1.name)) [
  | inl t ↦ rw t (ap (λ r. connect_destroyed v.1 ∷ r) (of-destroyed key vs))
  | inr t ↦ rw t (of-destroyed key vs)
]

pub values : (cs : List TcpConnection) → map (λ v. v.1) (map entry cs) ≡ cs
values [] = refl
values (c ∷ cs) = ap (λ r. c ∷ r) (values cs)

pub named-without :
    (key : Bytes) (i : ℕ) (cs : List TcpConnection) (c : TcpConnection)
    → at i cs ≡ some c
    → equals key c.name ≡ false
    → named key (without i cs) ≡ named key cs
unfolding named at without
named-without key i [] c e h = refl
named-without key zero (x ∷ cs) c e h = let same : x ≡ c = cc in rw same (rw h refl)
named-without key (suc i) (x ∷ cs) c e h = elim (Bool-cases (equals key x.name)) [
  | inl t ↦ rw t (ap (λ r. x ∷ r) (named-without key i cs c e h))
  | inr t ↦ rw t (named-without key i cs c e h)
]

-- How far the connection of a number has come: with the open connections and the calls of its name.
pub data Stage (id next : ℕ) : List TcpConnection → List Call → Type 0 where
  unmade : next ≤ id → Stage id next [] []
  opened : id < next → (c : TcpConnection) → Stage id next (c ∷ []) (connect_established c ∷ [])
  ended :
      id < next
      → (c : TcpConnection) → Stage id next [] (connect_established c ∷ connect_destroyed c ∷ [])

pub begin :
    {id next : ℕ} {cs : List TcpConnection} {ks : List Call} (c : TcpConnection)
    → id ≡ next
    → Stage id next cs ks
    → Stage id (suc next) (c ∷ cs) (ks ++ connect_established c ∷ [])
begin c e (unmade l) = opened (omega arith) c
begin c e (opened l d) = absurd (omega arith)
begin c e (ended l d) = absurd (omega arith)

pub keep :
    {id next : ℕ} {cs : List TcpConnection} {ks : List Call}
    → id ≢ next
    → Stage id next cs ks
    → Stage id (suc next) cs ks
keep ne (unmade l) = unmade (omega arith)
keep ne (opened l c) = opened (omega arith) c
keep ne (ended l c) = ended (omega arith) c

pub finish :
    {id next : ℕ} {c : TcpConnection} {ks : List Call}
    → Stage id next (c ∷ []) ks
    → Stage id next [] (ks ++ connect_destroyed c ∷ [])
finish (opened l c) = ended l c

pub settle :
    {id next : ℕ} {cs : List TcpConnection} {ks : List Call}
    → Stage id next cs ks
    → Stage id next [] (ks ++ map connect_destroyed cs)
settle (unmade l) = unmade l
settle (opened l c) = ended l c
settle (ended l c) = ended l c
