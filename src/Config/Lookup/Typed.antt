-- ===== src/Config/Lookup/Typed.antt =====
-- `get` and `get_or`, for each type that config.cpp instantiates them at.
use moban.Config.Value.{
  Result, ok, throws, ◌>>=◌, ConfigValue, node, int, path, path_or_root, as_bool, as_int, as_double,
  as_string,
}
use moban.Config.Lookup.{Config, find, node_at, has}
use moban.Prelude.{
  ℕ, ◌-◌, ◌^◌, ◌%◌, ◌≤◌, ◌<◌, ◌≡◌, refl, Bool, Bytes, Option, none, some, ◌++◌, ltb, if◌then◌else◌,
  codes, ℤ, pos, negsuc, arith, ◌≢◌,
}

-- The 64-bit pattern of an `int64_t`.
abbrev pub word64 : ℤ → ℕ
word64 (pos n) = n % 2 ^ 64
word64 (negsuc n) = 2 ^ 64 - 1 - n % 2 ^ 64

-- `static_cast<int32_t>`: the low 32 bits, read with their sign.
abbrev pub cast_int32 : ℤ → ℤ
cast_int32 z =
    let w = word64 z % 2 ^ 32 in if ltb w (2 ^ 31) then pos w else negsuc (2 ^ 32 - w - 1)

module _ {Double : Type 0} where
  unfoldable pub get_bool : Config Double → Bytes → Result Bool
  get_bool config name = do v ← node_at config name; as_bool v

  unfoldable pub get_int64 : Config Double → Bytes → Result ℤ
  get_int64 config name = do v ← node_at config name; as_int v

  unfoldable pub get_int32 : Config Double → Bytes → Result ℤ
  get_int32 config name = do v ← node_at config name; raw ← as_int v; ok (cast_int32 raw)

  -- The refusal of a negative number, and the cast to `bits` bits.
  as_unsigned : ℕ → ConfigValue Double → ℤ → Result ℕ
  as_unsigned bits v (pos n) = ok (n % 2 ^ bits)
  as_unsigned bits v (negsuc n) =
      throws (path_or_root (path v) ++ codes ": value is negative, cannot read as unsigned")

  unfoldable pub get_uint32 : Config Double → Bytes → Result ℕ
  unfolding as_unsigned
  get_uint32 config name = do v ← node_at config name; raw ← as_int v; as_unsigned 32 v raw

  unfoldable pub get_uint64 : Config Double → Bytes → Result ℕ
  unfolding as_unsigned
  get_uint64 config name = do v ← node_at config name; raw ← as_int v; as_unsigned 64 v raw

  unfoldable pub get_double : (ℤ → Double) → Config Double → Bytes → Result Double
  get_double widen config name = do v ← node_at config name; as_double widen v

  unfoldable pub get_float :
      {Float : Type 0} → (ℤ → Double) → (Double → Float) → Config Double → Bytes → Result Float
  get_float widen narrow config name = do
    v ← node_at config name
    d ← as_double widen v
    ok (narrow d)

  unfoldable pub get_string : Config Double → Bytes → Result Bytes
  get_string config name = do v ← node_at config name; as_string v

  -- `get_or<T>`, over the `get<T>` of its type.
  unfoldable pub get_or {ℓ} :
      {T : Type ℓ} → (Config Double → Bytes → Result T) → Config Double → Bytes → T → Result T
  get_or get config name fallback = do
    found ← has config name
    if found then get config name else ok fallback

  -- `get_or` falls back exactly where nothing stands at the path. What stands there is read as by
  -- `get`, and where `get` throws for its type, so does `get_or`.
  pub get_or_lem {ℓ} :
      {T : Type ℓ} (get : Config Double → Bytes → Result T) (config : Config Double) (name : Bytes)
      (fallback : T) (r : Option (ConfigValue Double))
      → find config name ≡ ok r
      → get_or get config name fallback ≡ elim r [ none ↦ ok fallback | some v ↦ get config name ]
  unfolding get_or has
  get_or_lem get config name fallback none e = rw e refl
  get_or_lem get config name fallback (some v) e = rw e refl

  -- A 32-bit read of an integer in the configuration is the integer itself where it fits; where it
  -- does not fit, the read still succeeds, with the low 32 bits of the integer.
  pub get_uint32_lem :
      (config : Config Double) (name p : Bytes) (n : ℕ)
      → n < 2 ^ 63
      → node_at config name ≡ ok (node (int (pos n)) p)
      → (n < 2 ^ 32 → get_uint32 config name ≡ ok n)
        × (2 ^ 32 ≤ n → (m : ℕ) × (get_uint32 config name ≡ ok m) × (m ≢ n) × (m < 2 ^ 32))
  unfolding get_uint32 as_int
  get_uint32_lem config name p n h e = (
    λ lt. let t : n % 2 ^ 32 ≡ n = omega arith in rw (e, t) refl,
    λ ge. (n % 2 ^ 32, rw e refl, omega arith, omega arith),
  )
