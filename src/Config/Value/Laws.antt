-- ===== src/Config/Value/Laws.antt =====
-- Objects have distinct keys, and lookup agrees with `has`.
use moban.Strings.Case.{same_bytes, same_bytes_iff}
use moban.Config.Value.{
  ok, throws, ConfigValue, node, null, object, Fields, end, field, find_field, duplicate,
  make_object, has, at_key, as_object, field_keys, missing_key, or_missing,
}
use moban.Prelude.{
  ◌≡◌, ◌≢◌, ◌↔◌, inl, inr, refl, ap, sym, ◌∙◌, Bool-cases, Option-cases, true, false, Bytes, Option,
  none, some, List, [], ◌∷◌,
}

-- No key stands twice.
abbrev pub Absent : Bytes → List Bytes → Type 0
Absent k [] = Unit
Absent k (j ∷ js) = (j ≢ k) × Absent k js

abbrev pub Apart : List Bytes → Type 0
Apart [] = Unit
Apart (k ∷ ks) = Absent k ks × Apart ks

same_bytes-ne : (a b : Bytes) → same_bytes a b ≡ false → a ≢ b
same_bytes-ne a b h e = let t = (same_bytes_iff a b).1 e in cc

module _ {Double : Type 0} where
  find_field-Absent :
      (fs : Fields Double) (key : Bytes) → (find_field fs key ≡ none) ↔ Absent key (field_keys fs)
  unfolding find_field field_keys
  find_field-Absent end key = (λ h. tt, λ h. refl)
  find_field-Absent (field k v fs) key = elim (Bool-cases (same_bytes k key)) [
    | inl t ↦ (λ h. absurd (some_ne v (rw t at h)), λ h. absurd (h.0 ((same_bytes_iff k key).0 t)))
    | inr t ↦
        let ih = find_field-Absent fs key in
        (λ h. (same_bytes-ne k key t, ih.0 (rw t at h)), λ h. rw t (ih.1 h.1))
  ]
    where
      some_ne : (v : ConfigValue Double) → some v ≢ none
      some_ne v e = cc

  duplicate-Apart : (fs : Fields Double) → (duplicate fs ≡ none) ↔ Apart (field_keys fs)
  unfolding duplicate field_keys
  duplicate-Apart end = (λ h. tt, λ h. refl)
  duplicate-Apart (field k v fs) = elim (Option-cases (find_field fs k)) [
    | inl e ↦
        let ih = duplicate-Apart fs in
        let a = find_field-Absent fs k in
        (λ h. (a.0 e, ih.0 (rw (e, duplicate) at h)), λ h. rw (e, duplicate) (ih.1 h.1))
    | inr (w, e) ↦
        let a = find_field-Absent fs k in
        (
          λ h. absurd (some_ne w (rw (e, duplicate) at h)),
          λ h. absurd (none_some w (sym (a.1 h.0) ∙ e)),
        )
  ]
    where
      some_ne :
          (w : ConfigValue Double)
          → ◌≢◌ {A = Option (Bytes × ConfigValue Double)} (some (k, w)) none
      some_ne w e = cc

      none_some : (w : ConfigValue Double) → none ≢ some w
      none_some w e = cc

  -- `make_object` succeeds exactly where no key stands twice, and then holds the fields as given.
  pub make_object_iff :
      (fs : Fields Double) (p : Bytes) (v : ConfigValue Double)
      → (make_object fs p ≡ ok v) ↔ (Apart (field_keys fs) × (v ≡ node (object fs) p))
  unfolding make_object
  make_object_iff fs p v = elim (Option-cases (duplicate fs)) [
    | inl e ↦
        let a = duplicate-Apart fs in
        (
          λ h. (a.0 e, sym (ok_injective (rw (e, make_object) at h))),
          λ h. rw (e, make_object) (ap ok (sym h.1)),
        )
    | inr (w, e) ↦
        let a = duplicate-Apart fs in
        (
          λ h. absurd (throws_ne (rw (e, make_object) at h)),
          λ h. absurd (none_some w (sym (a.1 h.0) ∙ e)),
        )
  ]
    where
      ok_injective : {a b : ConfigValue Double} → ok a ≡ ok b → a ≡ b
      ok_injective h = cc

      throws_ne : {m : Bytes} {b : ConfigValue Double} → throws m ≢ ok b
      throws_ne h = cc

      none_some : (w : Bytes × ConfigValue Double) → none ≢ some w
      none_some w e = cc

  at_key-missing :
      (fs : Fields Double) (p key : Bytes)
      → find_field fs key ≡ none
      → at_key (node (object fs) p) key ≡ throws (missing_key (node (object fs) p) key)
  unfolding at_key as_object
  at_key-missing fs p key e = ap (or_missing (node (object fs) p) key) e

  at_key-found :
      (fs : Fields Double) (p key : Bytes) (w : ConfigValue Double)
      → find_field fs key ≡ some w
      → at_key (node (object fs) p) key ≡ ok w
  unfolding at_key as_object
  at_key-found fs p key w e = ap (or_missing (node (object fs) p) key) e

  -- `has` says exactly where `operator[]` on the key does not throw.
  pub has_iff :
      (v : ConfigValue Double) (key : Bytes)
      → (has v key ≡ true) ↔ ((w : ConfigValue Double) × (at_key v key ≡ ok w))
  unfolding has at_key as_object
  has_iff (node (object fs) p) key = elim (Option-cases (find_field fs key)) [
    | inl e ↦ (
      λ h. absurd (false_true (rw (e, has) at h)),
      λ (w, h). absurd (throws_ne (sym (at_key-missing fs p key e) ∙ h)),
    )
    | inr (w, e) ↦ (λ h. (w, at_key-found fs p key w e), λ h. rw (e, has) refl)
  ]
    where
      false_true : false ≢ true
      false_true e = cc

      throws_ne : {m : Bytes} {b : ConfigValue Double} → throws m ≢ ok b
      throws_ne h = cc
  has_iff (node null p) key = (λ h. cc, λ (w, h). cc)
  has_iff (node s p) key = (λ h. cc, λ (w, h). cc)
