-- ===== src/Config/Json.antt =====
-- config_json.cpp and config_parser.cpp: the rapidjson document becomes a tree of values. The parser
-- is rapidjson's, and is a parameter: it answers an error with its offset and text, or a document.
pub mod Laws
use moban.Strings.Case.{same_bytes}
use moban.Config.Value.{
  Result, ok, throws, ◌>>=◌, ConfigValue, node, null, boolean, int, double, string, array, object,
  Items, nil, cons, Fields, end, field, child_path, to_string, make_object,
}
use moban.Prelude.{
  ℕ, zero, suc, ◌+◌, ◌-◌, ◌^◌, ◌%◌, Bool, true, false, Bytes, Option, none, some, [], ◌∷◌, ◌++◌,
  ◌==◌, ltb, if◌then◌else◌, codes, ℤ, pos, negsuc,
}

-- A rapidjson value. An integer is unsigned (`IsUint64`) or negative; other numbers are doubles.
mutual
  pub data Json (Double : Type 0) : Type 0 where
    null_type true_type false_type : Json Double
    uint64 : ℕ → Json Double
    negative : ℕ → Json Double
    real : Double → Json Double
    string_type : Bytes → Json Double
    array_type : Elements Double → Json Double
    object_type : Members Double → Json Double

  pub data Elements (Double : Type 0) : Type 0 where
    no_element : Elements Double
    element : Json Double → Elements Double → Elements Double

  pub data Members (Double : Type 0) : Type 0 where
    no_member : Members Double
    member : Bytes → Json Double → Members Double → Members Double

-- `std::string` of a C string: up to the first NUL.
unfoldable pub c_string : Bytes → Bytes
c_string [] = []
c_string (c ∷ s) = let rest = c_string s in if c == 0 then [] else c ∷ rest

-- The integer that a 64-bit pattern stands for.
abbrev pub signed64 : ℕ → ℤ
signed64 w = if ltb w (2 ^ 63) then pos w else negsuc (2 ^ 64 - w - 1)

-- `static_cast<int64_t>` of an `uint64_t`.
abbrev pub cast_int64 : ℕ → ℤ
cast_int64 n = signed64 (n % 2 ^ 64)

unfoldable mutual
  pub convert : {Double : Type 0} → Json Double → Bytes → Result (ConfigValue Double)
  convert null_type p = ok (node null p)
  convert true_type p = ok (node (boolean true) p)
  convert false_type p = ok (node (boolean false) p)
  convert (uint64 n) p = ok (node (int (cast_int64 n)) p)
  convert (negative n) p = ok (node (int (negsuc n)) p)
  convert (real d) p = ok (node (double d) p)
  convert (string_type s) p = ok (node (string (c_string s)) p)
  convert (array_type xs) p = do items ← convert_elements xs p 0; ok (node (array items) p)
  convert (object_type ms) p = do fields ← convert_members ms p; make_object fields p

  pub convert_elements : {Double : Type 0} → Elements Double → Bytes → ℕ → Result (Items Double)
  convert_elements no_element p index = ok nil
  convert_elements (element j xs) p index = do
    v ← convert j (child_path p (to_string index))
    rest ← convert_elements xs p (index + 1)
    ok (cons v rest)

  pub convert_members : {Double : Type 0} → Members Double → Bytes → Result (Fields Double)
  convert_members no_member p = ok end
  convert_members (member name j ms) p = do
    v ← convert j (child_path p (c_string name))
    rest ← convert_members ms p
    ok (field (c_string name) v rest)

module _ {Double : Type 0} where
  json_type_name : Json Double → Bytes
  json_type_name null_type = codes "null"
  json_type_name true_type = codes "bool"
  json_type_name false_type = codes "bool"
  json_type_name (uint64 n) = codes "number"
  json_type_name (negative n) = codes "number"
  json_type_name (real d) = codes "number"
  json_type_name (string_type s) = codes "string"
  json_type_name (array_type xs) = codes "array"
  json_type_name (object_type ms) = codes "object"

  is_object : Json Double → Bool
  is_object (object_type ms) = true
  is_object j = false

-- What `document.Parse` leaves: an error at an offset, or the document.
pub data Document (Double : Type 0) : Type 0 where
  parse_error : ℕ → Bytes → Document Double
  document : Json Double → Document Double

-- `Auto` cannot be dispatched.
pub data ConfigFormat : Type 0 where
  auto json : ConfigFormat

module _ {Double : Type 0} (parser : Bytes → Document Double) where
  read_document : Document Double → Result (ConfigValue Double)
  unfolding json_type_name is_object
  read_document (parse_error offset why) =
      throws (codes "json parse error at offset " ++ (to_string offset ++ (codes ": " ++ why)))
  read_document (document j) =
      if is_object j
      then convert j []
      else throws (codes "json root must be an object, got " ++ json_type_name j)

  unfoldable pub parse_json : Bytes → Result (ConfigValue Double)
  unfolding read_document
  parse_json content = read_document (parser content)

  unfoldable pub parse_config : Bytes → ConfigFormat → Result (ConfigValue Double)
  parse_config content json = parse_json content
  parse_config content auto = throws (
      codes "cannot infer config format for in-memory content, "
      ++ codes "specify the format explicitly")

-- The bytes behind the last dot.
extension : Bytes → Option Bytes
extension [] = none
extension (c ∷ s) =
    let rest = extension s in
    elim rest [ some e ↦ some e | none ↦ if c == b'.' then some s else none ]

unfoldable pub config_format_from_extension : Bytes → Result ConfigFormat
unfolding extension
config_format_from_extension path = elim (extension path) [
  | some e ↦ if same_bytes e (codes "json") then ok json else throws (unsupported path)
  | none ↦ throws (unsupported path)
]
  where
    unsupported : Bytes → Bytes
    unsupported path =
        codes "cannot infer config format from file '"
        ++ (path ++ codes "', supported extensions: .json")
