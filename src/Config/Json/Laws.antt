-- ===== src/Config/Json/Laws.antt =====
-- What the conversion from JSON guarantees of the tree.
use moban.Config.Value.{
  Result, ok, throws, ◌>>=◌, ConfigValue, node, Storage, null, boolean, int, double, string, array,
  object, Items, nil, cons, Fields, end, field, field_keys, child_path, to_string, as_int,
}
use moban.Config.Value.Laws.{Apart, make_object_iff}
use moban.Config.Json.{
  Json, null_type, true_type, false_type, uint64, negative, real, string_type, array_type,
  object_type, Elements, no_element, element, Members, no_member, member, convert, convert_elements,
  convert_members, c_string,
}
use moban.Prelude.{
  ℕ, ◌+◌, ◌-◌, ◌^◌, ◌≤◌, ◌<◌, ◌≡◌, refl, sym, Bytes, pos, negsuc, arith, subst, [], ◌∷◌, ◌++◌,
  codes,
}

-- The dotted path of a child: the path of its parent, a dot and the child's name, which stands alone at
-- the root.
abbrev pub dotted : Bytes → Bytes → Bytes
dotted [] name = name
dotted (c ∷ parent) name = (c ∷ parent) ++ (codes "." ++ name)

child_path-dotted : (parent name : Bytes) → child_path parent name ≡ dotted parent name
unfolding child_path
child_path-dotted [] name = refl
child_path-dotted (c ∷ parent) name = refl

-- Every value holds its own path, and no object has a key twice.
abbrev mutual
  pub Well : {Double : Type 0} → ConfigValue Double → Bytes → Type 0
  Well (node s q) p = (q ≡ p) × WellStorage s p

  pub WellStorage : {Double : Type 0} → Storage Double → Bytes → Type 0
  WellStorage (array xs) p = WellItems xs p 0
  WellStorage (object fs) p = Apart (field_keys fs) × WellFields fs p
  WellStorage null p = Unit
  WellStorage (boolean b) p = Unit
  WellStorage (int z) p = Unit
  WellStorage (double d) p = Unit
  WellStorage (string s) p = Unit

  pub WellItems : {Double : Type 0} → Items Double → Bytes → ℕ → Type 0
  WellItems nil p i = Unit
  WellItems (cons v xs) p i = Well v (dotted p (to_string i)) × WellItems xs p (i + 1)

  pub WellFields : {Double : Type 0} → Fields Double → Bytes → Type 0
  WellFields end p = Unit
  WellFields (field k v fs) p = Well v (dotted p k) × WellFields fs p

module _ {ℓ κ} {A : Type ℓ} {B : Type κ} where
  -- A chain that comes to a value came to one in its first step.
  first_ran :
      {last : B} (next : A → Result B) (first : Result A)
      → (first >>= next) ≡ ok last
      → (got : A) × (next got ≡ ok last) × (first ≡ ok got)
  first_ran next (ok got) e = (got, e, refl)
  first_ran next (throws message) e = cc

ok_injective {ℓ} : {A : Type ℓ} {a b : A} → ok a ≡ ok b → a ≡ b
ok_injective h = cc

mutual
  unfolding convert convert_elements convert_members

  convert_sound :
      {Double : Type 0} (j : Json Double) (p : Bytes) (v : ConfigValue Double)
      → convert j p ≡ ok v
      → Well v p
  convert_sound null_type p v h = subst (λ w. Well w p) (ok_injective h) (refl, tt)
  convert_sound true_type p v h = subst (λ w. Well w p) (ok_injective h) (refl, tt)
  convert_sound false_type p v h = subst (λ w. Well w p) (ok_injective h) (refl, tt)
  convert_sound (uint64 n) p v h = subst (λ w. Well w p) (ok_injective h) (refl, tt)
  convert_sound (negative n) p v h = subst (λ w. Well w p) (ok_injective h) (refl, tt)
  convert_sound (real d) p v h = subst (λ w. Well w p) (ok_injective h) (refl, tt)
  convert_sound (string_type s) p v h = subst (λ w. Well w p) (ok_injective h) (refl, tt)
  convert_sound (array_type xs) p v h =
      let (items, k, e) = first_ran _ (convert_elements xs p 0) h in
      subst (λ w. Well w p) (ok_injective k) (refl, elements_sound xs p 0 items e)
  convert_sound (object_type ms) p v h =
      let (fields, k, e) = first_ran _ (convert_members ms p) h in
      let (apart, same) = (make_object_iff fields p v).0 k in
      subst (λ w. Well w p) (sym same) (refl, (apart, members_sound ms p fields e))

  elements_sound :
      {Double : Type 0} (xs : Elements Double) (p : Bytes) (i : ℕ) (items : Items Double)
      → convert_elements xs p i ≡ ok items
      → WellItems items p i
  elements_sound no_element p i items h = subst (λ w. WellItems w p i) (ok_injective h) tt
  elements_sound (element j xs) p i items h =
      let (v, k, e) = first_ran _ (convert j (child_path p (to_string i))) h in
      let (rest, k', e') = first_ran _ (convert_elements xs p (i + 1)) k in
      subst (λ w. WellItems w p i) (ok_injective k')
        (
          subst (Well v) (child_path-dotted p (to_string i))
              (convert_sound j (child_path p (to_string i)) v e),
          elements_sound xs p (i + 1) rest e',
        )

  members_sound :
      {Double : Type 0} (ms : Members Double) (p : Bytes) (fields : Fields Double)
      → convert_members ms p ≡ ok fields
      → WellFields fields p
  members_sound no_member p fields h = subst (λ w. WellFields w p) (ok_injective h) tt
  members_sound (member name j ms) p fields h =
      let (v, k, e) = first_ran _ (convert j (child_path p (c_string name))) h in
      let (rest, k', e') = first_ran _ (convert_members ms p) k in
      subst (λ w. WellFields w p) (ok_injective k')
        (
          subst (Well v) (child_path-dotted p (c_string name))
              (convert_sound j (child_path p (c_string name)) v e),
          members_sound ms p rest e',
        )

-- Every tree that `convert` returns for a node at a path is labelled with the dotted paths from it,
-- down to the leaves, and none of its objects has a key twice.
pub convert-Well :
    {Double : Type 0} (j : Json Double) (p : Bytes) (v : ConfigValue Double)
    → convert j p ≡ ok v
    → Well v p
convert-Well j p v h = convert_sound j p v h

-- An unsigned 64-bit JSON integer that `convert` takes is read back as itself if it is below 2 ^ 63. From there on to 2 ^ 64 it
-- turns negative.
pub convert_uint64 :
    {Double : Type 0} (n : ℕ) (p : Bytes) (v : ConfigValue Double)
    → n < 2 ^ 64
    → convert (uint64 n) p ≡ ok v
    → (n < 2 ^ 63 → as_int v ≡ ok (pos n)) × (2 ^ 63 ≤ n → as_int v ≡ ok (negsuc (2 ^ 64 - n - 1)))
unfolding convert as_int
convert_uint64 n p v h e =
    (λ lt. rw (← ok_injective e) (ground arith), λ ge. rw (← ok_injective e) (ground arith))
