-- ===== src/EventLoop/RoundRobin.antt =====
-- plugins/Muduo/muduo/net/EventLoopThreadPool.cpp: the loops of a server, and which of them gets the next
-- connection. A loop is a number.
use moban.Prelude.{
  ℕ, zero, suc, ◌+◌, ◌<◌, ◌≡◌, refl, Option, some, List, [], ◌∷◌, leb, if◌then◌else◌, get_elem?,
  length, arith, ◌*◌, ap, ◌∙◌, Bool, none, true, false, ◌++◌, ◌%◌, ◌/◌,
}

pub record EventLoopThreadPool : Type 0 where
  pub base_loop : ℕ
  pub started : Bool
  pub num_thread : ℕ
  pub loops : List ℕ
  pub next : ℕ

unfoldable pub create : ℕ → EventLoopThreadPool
create base = record { base_loop = base; started = false; num_thread = 0; loops = []; next = 0 }

unfoldable pub set_thread_num : ℕ → EventLoopThreadPool → EventLoopThreadPool
set_thread_num n p = record p { num_thread = n }

-- The loops of `n` threads, from the number `i` on: `start_loop` is what `startLoop` of each returns.
unfoldable pub start_loops : (ℕ → ℕ) → ℕ → ℕ → List ℕ
start_loops start_loop i zero = []
start_loops start_loop i (suc n) = start_loop i ∷ start_loops start_loop (suc i) n

-- `none` is the failure of `assert(!started_)`.
unfoldable pub start : (ℕ → ℕ) → EventLoopThreadPool → Option EventLoopThreadPool
unfolding start_loops
start start_loop p =
    if p.started
    then none
    else some
        (record p { started = true; loops = p.loops ++ start_loops start_loop 0 p.num_thread })

next_of : EventLoopThreadPool → List ℕ → Option ℕ × EventLoopThreadPool
next_of p [] = (some p.base_loop, p)
next_of p (l ∷ ls) = (
  get_elem? p.loops p.next,
  record p { next = if leb (length p.loops) (suc p.next) then 0 else suc p.next },
)

-- `none` is a read behind the end of the loops.
unfoldable pub get_next_loop : EventLoopThreadPool → Option ℕ × EventLoopThreadPool
unfolding next_of
get_next_loop p = next_of p p.loops

unfoldable pub after_calls : ℕ → EventLoopThreadPool → EventLoopThreadPool
after_calls zero p = p
after_calls (suc k) p = (get_next_loop (after_calls k p)).1

get_next_loop-next :
    (p : EventLoopThreadPool) (l : ℕ) (ls : List ℕ)
    → p.loops ≡ l ∷ ls
    → ((get_next_loop p).0 ≡ get_elem? (l ∷ ls) p.next)
      × ((get_next_loop p).1.loops ≡ l ∷ ls)
      × ((get_next_loop p).1.next ≡ (if leb (suc (length ls)) (suc p.next) then 0 else suc p.next))
unfolding get_next_loop
get_next_loop-next p l ls h = rw h (refl, refl, refl)

abbrev pub fresh : (base n l : ℕ) → List ℕ → EventLoopThreadPool
fresh base n l ls = record {
  base_loop = base;
  started = true;
  num_thread = n;
  loops = l ∷ ls;
  next = 0;
}

module _ (base n l : ℕ) (ls : List ℕ) where
  kept : (k : ℕ) → (after_calls k (fresh base n l ls)).loops ≡ l ∷ ls
  unfolding after_calls
  kept zero = refl
  kept (suc k) = (get_next_loop-next (after_calls k (fresh base n l ls)) l ls (kept k)).1

  next-eq :
      (q r : ℕ)
      → r < length (l ∷ ls)
      → (after_calls (q * length (l ∷ ls) + r) (fresh base n l ls)).next ≡ r
  unfolding after_calls
  next-eq zero zero h = let e : 0 * length (l ∷ ls) + 0 ≡ 0 = omega arith in rw e refl
  next-eq q (suc r) h =
      let k : ℕ = q * length (l ∷ ls) + r in
      let e : q * length (l ∷ ls) + suc r ≡ suc k = omega arith in
      let now = get_next_loop-next (after_calls k (fresh base n l ls)) l ls (kept k) in
      rw e (ground (arith, now.2, next-eq q r (omega arith)))
  next-eq (suc q) zero h =
      let k : ℕ = q * length (l ∷ ls) + length ls in
      let e : suc q * length (l ∷ ls) + 0 ≡ suc k = grind arith in
      let now = get_next_loop-next (after_calls k (fresh base n l ls)) l ls (kept k) in
      rw e (ground (arith, now.2, next-eq q (length ls) (omega arith)))

-- Connections go round the loops: of a pool of `n` loops, the loop number `r` gets the calls `r`,
-- `n + r`, `2 n + r` and so on, and no other.
pub get_next_loop_lem :
    (base n l : ℕ) (ls : List ℕ) (q r : ℕ)
    → r < length (l ∷ ls)
    → (get_next_loop (after_calls (q * length (l ∷ ls) + r) (fresh base n l ls))).0
      ≡ get_elem? (l ∷ ls) r
get_next_loop_lem base n l ls q r h =
    let k : ℕ = q * length (l ∷ ls) + r in
    let now = get_next_loop-next (after_calls k (fresh base n l ls)) l ls (kept base n l ls k) in
    now.0 ∙ ap (get_elem? (l ∷ ls)) (next-eq base n l ls q r h)

-- The loop that is due: the loops of the threads in turn, and the base loop if there is no thread.
abbrev pub deal : ℕ → (ℕ → ℕ) → ℕ → ℕ → ℕ
deal base start_loop zero k = base
deal base start_loop (suc m) k = start_loop (k % suc m)

length-start_loops : (f : ℕ → ℕ) (i n : ℕ) → length (start_loops f i n) ≡ n
unfolding start_loops
length-start_loops f i zero = refl
length-start_loops f i (suc n) = ap suc (length-start_loops f (suc i) n)

get_elem?-start_loops :
    (f : ℕ → ℕ) (i n r : ℕ) → r < n → get_elem? (start_loops f i n) r ≡ some (f (i + r))
unfolding start_loops
get_elem?-start_loops f i zero r h = absurd (omega arith)
get_elem?-start_loops f i (suc n) zero h = ap (λ k. some (f k)) (omega arith)
get_elem?-start_loops f i (suc n) (suc r) h =
    get_elem?-start_loops f (suc i) n r (omega arith) ∙ ap (λ k. some (f k)) (omega arith)

-- A pool that has started.
abbrev pub running : ℕ → (ℕ → ℕ) → ℕ → EventLoopThreadPool
running base start_loop n = record {
  base_loop = base;
  started = true;
  num_thread = n;
  loops = start_loops start_loop 0 n;
  next = 0;
}

alone : (base k : ℕ) (f : ℕ → ℕ) → after_calls k (running base f 0) ≡ running base f 0
unfolding after_calls get_next_loop start_loops
alone base zero f = refl
alone base (suc k) f = ap (λ p. (get_next_loop p).1) (alone base k f)

-- The call number `k` of `getNextLoop` gets the loop that is due.
pub get_next_loop-deal :
    (base n k : ℕ) (f : ℕ → ℕ)
    → (get_next_loop (after_calls k (running base f n))).0 ≡ some (deal base f n k)
unfolding get_next_loop start_loops
get_next_loop-deal base zero k f = ap (λ p. (get_next_loop p).0) (alone base k f)
get_next_loop-deal base (suc m) k f =
    let ls = start_loops f 1 m in
    let len : length (f 0 ∷ ls) ≡ suc m = ap suc (length-start_loops f 1 m) in
    let split : k ≡ k / suc m * length (f 0 ∷ ls) + k % suc m = rw len (omega arith) in
    let small : k % suc m < length (f 0 ∷ ls) = rw len (omega arith) in
    let due = get_next_loop_lem base (suc m) (f 0) ls (k / suc m) (k % suc m) small in
    ap (λ j. (get_next_loop (after_calls j (running base f (suc m)))).0) split
    ∙ due
    ∙ get_elem?-start_loops f 0 (suc m) (k % suc m) (omega arith)
    ∙ ap (λ j. some (f j)) (omega arith)
