-- ===== src/Config/Value.antt =====
-- config_value.h and config_value.cpp: a tree of values, each with its dotted path.
pub mod Laws
use moban.Strings.Case.{same_bytes}
use moban.Prelude.{
  ℕ, zero, suc, ◌+◌, ◌/◌, ◌%◌, Bool, true, false, ◌||◌, not, Bytes, Option, none, some, List, [],
  ◌∷◌, ◌++◌, ◌==◌, leb, ltb, if◌then◌else◌, length, codes, ℤ,
}

-- `ConfigError`, thrown with its message.
pub data Result {ℓ} (A : Type ℓ) : Type ℓ where
  ok : A → Result A
  throws : Bytes → Result A

infixl 5 ◌>>=◌
abbrev pub ◌>>=◌ {ℓ κ} : {A : Type ℓ} {B : Type κ} → Result A → (A → Result B) → Result B
ok value >>= next = next value
throws message >>= next = throws message

-- A value holds its storage and its path; arrays and objects are lists of values.
mutual
  pub data ConfigValue (Double : Type 0) : Type 0 where
    node : Storage Double → Bytes → ConfigValue Double

  pub data Storage (Double : Type 0) : Type 0 where
    null : Storage Double
    boolean : Bool → Storage Double
    int : ℤ → Storage Double
    double : Double → Storage Double
    string : Bytes → Storage Double
    array : Items Double → Storage Double
    object : Fields Double → Storage Double

  pub data Items (Double : Type 0) : Type 0 where
    nil : Items Double
    cons : ConfigValue Double → Items Double → Items Double

  pub data Fields (Double : Type 0) : Type 0 where
    end : Fields Double
    field : Bytes → ConfigValue Double → Fields Double → Fields Double

abbrev pub root_name : Bytes
root_name = codes "<root>"

-- "<root>" for the empty path.
abbrev pub path_or_root : Bytes → Bytes
path_or_root [] = root_name
path_or_root (c ∷ p) = c ∷ p

-- `std::to_string` of a number: its decimal digits.
decimal_loop : ℕ → ℕ → Bytes → Bytes
decimal_loop zero n out = out
decimal_loop (suc fuel) n out =
    let rest = decimal_loop fuel (n / 10) ((b'0' + n % 10) ∷ out) in
    if ltb n 10 then (b'0' + n) ∷ out else rest

unfoldable pub to_string : ℕ → Bytes
unfolding decimal_loop
to_string n = decimal_loop (suc n) n []

unfoldable pub child_path : Bytes → Bytes → Bytes
child_path [] key = key
child_path (c ∷ parent) key = (c ∷ parent) ++ b'.' ∷ key

-- The place that a duplicate key is reported at.
abbrev pub where_duplicate : Bytes → Bytes → Bytes → Bytes
where_duplicate parent key [] = child_path parent key
where_duplicate parent key (c ∷ p) = c ∷ p

prefix : Bytes → Bytes
prefix [] = []
prefix (c ∷ p) = (c ∷ p) ++ codes ": "

module _ {Double : Type 0} where
  abbrev pub path : ConfigValue Double → Bytes
  path (node s p) = p

  abbrev pub storage : ConfigValue Double → Storage Double
  storage (node s p) = s

  unfoldable pub type_name : Storage Double → Bytes
  type_name null = codes "null"
  type_name (boolean b) = codes "bool"
  type_name (int z) = codes "int"
  type_name (double d) = codes "double"
  type_name (string s) = codes "string"
  type_name (array xs) = codes "array"
  type_name (object fs) = codes "object"

  -- The first field with the key, in a scan from the front.
  unfoldable pub find_field : Fields Double → Bytes → Option (ConfigValue Double)
  find_field end key = none
  find_field (field k v fs) key =
      let rest = find_field fs key in if same_bytes k key then some v else rest

  -- Both loops of `make_object`: the value at the second place of the first key that stands twice,
  -- with its key.
  unfoldable pub duplicate : Fields Double → Option (Bytes × ConfigValue Double)
  duplicate end = none
  duplicate (field k v fs) =
      let rest = duplicate fs in elim (find_field fs k) [ some w ↦ some (k, w) | none ↦ rest ]

  unfoldable pub make_object : Fields Double → Bytes → Result (ConfigValue Double)
  unfolding duplicate
  make_object fs p = elim (duplicate fs) [
    | none ↦ ok (node (object fs) p)
    | some (k, w) ↦ throws (where_duplicate p k (path w) ++ codes ": duplicate key")
  ]

  unfoldable pub type_error : ConfigValue Double → Bytes → Bytes
  unfolding prefix
  type_error (node s p) expected =
      prefix p ++ (codes "expected " ++ (expected ++ (codes ", got " ++ type_name s)))

  unfoldable pub missing_key : ConfigValue Double → Bytes → Bytes
  missing_key (node s p) key = path_or_root p ++ (codes ": key '" ++ (key ++ codes "' not found"))

  unfoldable pub as_bool : ConfigValue Double → Result Bool
  as_bool (node (boolean b) p) = ok b
  as_bool v = throws (type_error v (codes "bool"))

  unfoldable pub as_int : ConfigValue Double → Result ℤ
  as_int (node (int z) p) = ok z
  as_int v = throws (type_error v (codes "int"))

  -- An integer is widened, by `static_cast<double>`.
  unfoldable pub as_double : (ℤ → Double) → ConfigValue Double → Result Double
  as_double widen (node (double d) p) = ok d
  as_double widen (node (int z) p) = ok (widen z)
  as_double widen v = throws (type_error v (codes "double"))

  unfoldable pub as_string : ConfigValue Double → Result Bytes
  as_string (node (string s) p) = ok s
  as_string v = throws (type_error v (codes "string"))

  unfoldable pub as_array : ConfigValue Double → Result (Items Double)
  as_array (node (array xs) p) = ok xs
  as_array v = throws (type_error v (codes "array"))

  unfoldable pub as_object : ConfigValue Double → Result (Fields Double)
  as_object (node (object fs) p) = ok fs
  as_object v = throws (type_error v (codes "object"))

  unfoldable pub nth : Items Double → ℕ → Option (ConfigValue Double)
  nth nil i = none
  nth (cons v xs) zero = some v
  nth (cons v xs) (suc i) = nth xs i

  unfoldable pub count_items : Items Double → ℕ
  count_items nil = 0
  count_items (cons v xs) = suc (count_items xs)

  unfoldable pub count_fields : Fields Double → ℕ
  count_fields end = 0
  count_fields (field k v fs) = suc (count_fields fs)

  abbrev pub or_missing :
      ConfigValue Double → Bytes → Option (ConfigValue Double) → Result (ConfigValue Double)
  or_missing v key (some w) = ok w
  or_missing v key none = throws (missing_key v key)

  -- `operator[](key)`.
  unfoldable pub at_key : ConfigValue Double → Bytes → Result (ConfigValue Double)
  at_key v key = do fs ← as_object v; or_missing v key (find_field fs key)

  out_of_range : ConfigValue Double → ℕ → ℕ → Bytes
  out_of_range v index n =
      path_or_root (path v)
      ++ (codes ": index " ++ (to_string index ++ (codes " out of range, size is " ++ to_string n)))

  -- `operator[](index)`.
  unfoldable pub at_index : ConfigValue Double → ℕ → Result (ConfigValue Double)
  unfolding out_of_range
  at_index v index = do
    xs ← as_array v
    elim (nth xs index) [ some w ↦ ok w | none ↦ throws (out_of_range v index (count_items xs)) ]

  unfoldable pub has : ConfigValue Double → Bytes → Bool
  has (node (object fs) p) key = elim (find_field fs key) [ some w ↦ true | none ↦ false ]
  has v key = false

  unfoldable pub size : ConfigValue Double → Result ℕ
  size (node (array xs) p) = ok (count_items xs)
  size (node (object fs) p) = ok (count_fields fs)
  size v = throws (type_error v (codes "array or object"))

  unfoldable pub field_keys : Fields Double → List Bytes
  field_keys end = []
  field_keys (field k v fs) = k ∷ field_keys fs

  unfoldable pub keys : ConfigValue Double → Result (List Bytes)
  keys v = do fs ← as_object v; ok (field_keys fs)
