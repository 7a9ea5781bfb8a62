-- ===== src/BoundedQueue/Refines.antt =====
-- The ring refines a bounded first-in first-out queue.
use moban.BoundedQueue.Spec
use moban.BoundedQueue.Spec.{Fifo}
use moban.Prelude.{
  ℕ, zero, suc, ◌+◌, ◌-◌, ◌%◌, ◌^◌, ◌≤◌, ◌<◌, ◌≡◌, ◌≢◌, refl, ap, ◌∙◌, Bool, false, some, List, [],
  ◌∷◌, ◌++◌, arith, add_size, sub_size, length, get_elem?, set, length-set, length-replicate,
  length-append, Bool-cases, inl, inr, ◌⊎◌, ltb,
}
use native.Mathlib.Nat.{mod-add-mod, mod-eq_of_lt, mod-eq-sub-mod, add-zero}
use moban.BoundedQueue.{
  Queue, Outcome, waits, returns, create, stop, push, try_push, pop, try_pop_for, emplace_internal,
  pop_internal,
}

module _ {ℓ} {T : Type ℓ} where
  pub get_elem?-set_self :
      (xs : List T) (i : ℕ) (v : T) → i < length xs → get_elem? (set xs i v) i ≡ some v
  get_elem?-set_self [] i v h = absurd (omega arith)
  get_elem?-set_self (x ∷ xs) zero v h = refl
  get_elem?-set_self (x ∷ xs) (suc i) v h = get_elem?-set_self xs i v (omega arith)

  pub get_elem?-set_ne :
      (xs : List T) {i j : ℕ} (v : T) → i ≢ j → get_elem? (set xs i v) j ≡ get_elem? xs j
  get_elem?-set_ne [] v h = refl
  get_elem?-set_ne (x ∷ xs) {i = zero} {j = zero} v h = absurd (h refl)
  get_elem?-set_ne (x ∷ xs) {i = zero} {j = suc j} v h = refl
  get_elem?-set_ne (x ∷ xs) {i = suc i} {j = zero} v h = refl
  get_elem?-set_ne (x ∷ xs) {i = suc i} {j = suc j} v h = get_elem?-set_ne xs v (λ e. h (ap suc e))

  -- From position `h` on, going round at `cap`, stand the values `xs`.
  abbrev pub Window : List T → ℕ → ℕ → List T → Type ℓ
  Window buf cap h [] = Unit
  Window buf cap h (x ∷ xs) = (get_elem? buf h ≡ some x) × Window buf cap ((h + 1) % cap) xs

  pub record IsValid (q : Queue T) : Type 0 where
    pub storage : length q.buffer ≡ q.max_size
    pub small : q.max_size < 2 ^ 63
    pub size_in : q.size ≤ q.max_size
    pub front_in : 0 < q.max_size → q.front < q.max_size
    pub back_at : 0 < q.max_size → q.back ≡ (q.front + q.size) % q.max_size

  -- The ring holds the values of `f`, oldest first.
  pub record Holds (q : Queue T) (f : Fifo T) : Type ℓ where
    pub valid : IsValid q
    pub count : q.size ≡ length f.values
    pub window : Window q.buffer q.max_size q.front f.values
    pub flag : q.stopped ≡ f.stopped

-- A walk of less than a whole turn either ends before the last place of the ring, or turns once.
turned_once :
    (start steps places : ℕ)
    → start < places
    → steps < places
    → ((start + steps) % places ≡ start + steps)
      ⊎ ((start + steps) % places + places ≡ start + steps)
turned_once start steps places inside short = elim (Bool-cases (ltb (start + steps) places)) [
  | inl t ↦ (let under : start + steps < places = ground arith in inl (mod-eq_of_lt under))
  | inr t ↦
      let past : places ≤ start + steps = ground arith in
      let back = mod-eq-sub-mod {n = start + steps} {m = places} (omega arith) in
      let rest = mod-eq_of_lt {n = start + steps - places} {m = places} (omega arith) in
      inr (omega arith)
]

-- So it does not come back to its start.
walk-moves :
    (start steps places : ℕ)
    → start < places
    → 0 < steps
    → steps < places
    → (start + steps) % places ≢ start
walk-moves start steps places inside some_step short e =
    elim (turned_once start steps places inside short) [ inl t ↦ omega arith | inr t ↦ omega arith ]

shift-mod : (h n cap : ℕ) → (h + suc n) % cap ≡ ((h + 1) % cap + n) % cap
shift-mod h n cap = rw mod-add-mod (ap (λ k. k % cap) (omega arith))

turn : (h n b cap : ℕ) → b ≡ (h + n) % cap → (b + 1) % cap ≡ (h + (n + 1)) % cap
turn h n b cap e = rw (e, mod-add-mod) (ap (λ k. k % cap) (omega arith))

module _ {ℓ} {T : Type ℓ} where
  -- A write just past a window extends it.
  Window-set :
      (buf : List T) (cap : ℕ) (x : T) (xs : List T) (h i : ℕ)
      → length buf ≡ cap
      → h < cap
      → length xs < cap
      → i ≡ (h + length xs) % cap
      → Window buf cap h xs
      → Window (set buf i x) cap h (xs ++ x ∷ [])
  Window-set buf cap x [] h i hs hh hn e w =
      let e' : i ≡ h = e ∙ (rw add-zero (mod-eq_of_lt hh)) in
      rw e' (get_elem?-set_self buf h x (omega arith), tt)
  Window-set buf cap x (y ∷ xs) h i hs hh hn e w =
      let miss : i ≢ h = rw e (walk-moves h (suc (length xs)) cap hh (omega arith) hn) in
      (
        get_elem?-set_ne buf x miss ∙ w.0,
        Window-set buf cap x xs ((h + 1) % cap) i hs (omega arith) (omega arith)
            (e ∙ shift-mod h (length xs) cap) w.1,
      )

  emplace-Holds :
      (q : Queue T) (f : Fifo T) (x : T)
      → Holds q f
      → q.size < q.max_size
      → Holds (emplace_internal q x) (record f { values = f.values ++ x ∷ [] })
  unfolding emplace_internal
  emplace-Holds q f x h lt =
      let v = h.valid in
      let hf = v.front_in (omega arith) in
      let hb = v.back_at (omega arith) in
      let e1 : add_size q.size 1 ≡ q.size + 1 = omega arith in
      let ls = length-set q.buffer q.back x in
      let n = h.count in
      let lb : q.back < q.max_size = omega arith in
      let nb : add_size q.back 1 ≡ q.back + 1 = omega arith in
      record {
        valid = record {
          storage = ls ∙ v.storage;
          small = v.small;
          size_in = omega arith;
          front_in = λ _. hf;
          back_at = λ _. rw (nb, e1) (turn q.front q.size q.back q.max_size hb);
        };
        count = omega (arith, length-append f.values (x ∷ []));
        window =
            Window-set q.buffer q.max_size x f.values q.front q.back v.storage hf (omega arith)
              (hb ∙ ap (λ k. (q.front + k) % q.max_size) n) h.window;
        flag = h.flag;
      }

  pop-Holds :
      (q : Queue T) (x : T) (xs : List T) (s : Bool)
      → Holds q (record { values = x ∷ xs; stopped = s })
      → ((pop_internal q).0 ≡ some x)
        × Holds (pop_internal q).1 (record { values = xs; stopped = s })
  unfolding pop_internal
  pop-Holds q x xs s h =
      let v = h.valid in
      let n : q.size ≡ suc (length xs) = h.count in
      let hf = v.front_in (omega arith) in
      let hb = v.back_at (omega arith) in
      let e1 : sub_size q.size 1 ≡ q.size - 1 = omega arith in
      let nf : add_size q.front 1 ≡ q.front + 1 = omega arith in
      (
        h.window.0,
        record {
          valid = record {
            storage = v.storage;
            small = v.small;
            size_in = omega arith;
            front_in = λ _. omega arith;
            back_at = λ _.
                rw (nf, e1)
                  (hb
                    ∙ ap (λ k. (q.front + k) % q.max_size) (omega arith)
                    ∙ shift-mod q.front (q.size - 1) q.max_size);
          };
          count = omega arith;
          window = rw nf h.window.1;
          flag = h.flag;
        },
      )

-- Two outcomes agree: both sleep, or both return related values.
abbrev pub Same {ℓ κ μ} :
    {A : Type ℓ} {B : Type κ} → (A → B → Type μ) → Outcome A → Outcome B → Type μ
Same R waits waits = Unit
Same R (returns a) (returns b) = R a b
Same R _ _ = ⊥ × Unit

module _ {ℓ} {T : Type ℓ} where
  -- A new queue of `n` places holds nothing.
  pub create-Holds :
      (zero_value : T) (n : ℕ)
      → n < 2 ^ 63
      → Holds (create zero_value n) (record { values = []; stopped = false })
  unfolding create
  create-Holds zero_value n h = record {
    valid = record {
      storage = length-replicate n zero_value;
      small = h;
      size_in = omega arith;
      front_in = λ p. p;
      back_at = λ p. omega arith;
    };
    count = refl;
    window = tt;
    flag = refl;
  }

  pub stop-Holds : (q : Queue T) (f : Fifo T) → Holds q f → Holds (stop q) (Spec.stop f)
  unfolding stop Spec.stop
  stop-Holds q f h = record {
    valid = record {
      storage = h.valid.storage;
      small = h.valid.small;
      size_in = h.valid.size_in;
      front_in = h.valid.front_in;
      back_at = h.valid.back_at;
    };
    count = h.count;
    window = h.window;
    flag = refl;
  }

  pub push_refines :
      (q : Queue T) (f : Fifo T) (x : T)
      → Holds q f
      → Same Holds (push q x) (Spec.push q.max_size f x)
  unfolding push Spec.push
  push_refines q f x h = ground (arith, emplace-Holds q f x h)

  pub try_push_refines :
      (q : Queue T) (f : Fifo T) (x : T)
      → Holds q f
      → ((try_push q x).0 ≡ (Spec.try_push q.max_size f x).0)
        × Holds (try_push q x).1 (Spec.try_push q.max_size f x).1
  unfolding try_push Spec.try_push
  try_push_refines q f x h = ground (arith, emplace-Holds q f x h)

  pub pop_refines :
      (q : Queue T) (f : Fifo T)
      → Holds q f
      → Same (λ a b. (a.0 ≡ b.0) × Holds a.1 b.1) (pop q) (Spec.pop f)
  unfolding pop Spec.pop
  pop_refines q f h = by_values q f.values f.stopped h
    where
      by_values :
          (q : Queue T) (xs : List T) (s : Bool)
          → Holds q (record { values = xs; stopped = s })
          → Same
              (λ a b. (a.0 ≡ b.0) × Holds a.1 b.1)
              (pop q)
              (Spec.pop (record { values = xs; stopped = s }))
      by_values q [] s h = ground arith
      by_values q (x ∷ xs) s h = ground (arith, pop-Holds q x xs s)

  pub try_pop_for_refines :
      (q : Queue T) (f : Fifo T) (expired : Bool)
      → Holds q f
      → Same
          (λ a b. (a.0 ≡ b.0) × Holds a.1 b.1)
          (try_pop_for q expired)
          (Spec.try_pop_for f expired)
  unfolding try_pop_for Spec.try_pop_for
  try_pop_for_refines q f expired h = by_values q f.values f.stopped h
    where
      by_values :
          (q : Queue T) (xs : List T) (s : Bool)
          → Holds q (record { values = xs; stopped = s })
          → Same
              (λ a b. (a.0 ≡ b.0) × Holds a.1 b.1)
              (try_pop_for q expired)
              (Spec.try_pop_for (record { values = xs; stopped = s }) expired)
      by_values q [] s h = ground arith
      by_values q (x ∷ xs) s h = ground (arith, pop-Holds q x xs s)
