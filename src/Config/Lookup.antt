-- ===== src/Config/Lookup.antt =====
-- config.cpp: loading, lookup by dotted path, and the typed reads.
pub mod Laws
pub mod Typed
use moban.Config.Value.{
  Result, ok, throws, ◌>>=◌, ConfigValue, node, null, array, object, find_field, nth, path_or_root,
  path, as_bool, as_int, as_double, as_string,
}
use moban.Config.Json.{
  Document, ConfigFormat, auto, json, parse_config, config_format_from_extension,
}
use moban.Prelude.{
  ℕ, zero, suc, ◌+◌, ◌-◌, ◌*◌, ◌^◌, ◌%◌, Bool, true, false, ◌&&◌, Bytes, Option, none, some, List,
  [], ◌∷◌, ◌++◌, ◌==◌, leb, ltb, if◌then◌else◌, length, take, drop, codes, ℤ, pos, negsuc,
}

pub record Config (Double : Type 0) : Type 0 where
  pub format : ConfigFormat
  pub root : ConfigValue Double
  pub loaded : Bool

-- What the file system answers to the open and the reading of a file.
pub data FileRead : Type 0 where
  not_opened : FileRead
  read_failed : FileRead
  contents : Bytes → FileRead

is_index_char : ℕ → Bool
is_index_char c = leb b'0' c && leb c b'9'

all_index : Bytes → Bool
unfolding is_index_char
all_index [] = true
all_index (c ∷ s) = is_index_char c && all_index s

unfoldable pub is_index : Bytes → Bool
unfolding all_index
is_index [] = false
is_index (c ∷ s) = all_index (c ∷ s)

-- `std::stoull` of at most 19 digits, which does not overflow.
stoull_loop : ℕ → Bytes → ℕ
stoull_loop n [] = n
stoull_loop n (c ∷ s) = stoull_loop (n * 10 + (c - b'0')) s

unfoldable pub stoull : Bytes → ℕ
unfolding stoull_loop
stoull = stoull_loop 0

-- The bytes before the first dot, and those behind it, if there is one.
unfoldable pub first_segment : Bytes → Bytes × Option Bytes
first_segment [] = ([], none)
first_segment (c ∷ s) =
    let rest = first_segment s in if c == b'.' then ([], some s) else (c ∷ rest.0, rest.1)

module _ {Double : Type 0} where
  unfoldable pub create : ConfigFormat → Config Double
  create format = record { format = format; root = node null []; loaded = false }

  -- One round of the loop of `find`: the child that a segment names.
  unfoldable pub child : ConfigValue Double → Bytes → Option (ConfigValue Double)
  child (node (array xs) p) segment =
      if is_index segment
      then if ltb 19 (length segment) then none else nth xs (stoull segment)
      else none
  child (node (object fs) p) segment = find_field fs segment
  child v segment = none

  descend : ConfigValue Double → Bytes → Option (ConfigValue Double)
  descend v [] = none
  descend v (c ∷ s) = child v (c ∷ s)

  -- The loop of `find`; every round takes a dot off the path, so the fuel of its length suffices.
  pub find_loop : ℕ → ConfigValue Double → Bytes → Option (ConfigValue Double)
  unfolding descend
  find_loop zero current rest = none
  find_loop (suc fuel) current rest =
      let (segment, behind) = first_segment rest in
      elim (descend current segment) [
        | none ↦ none
        | some next ↦ elim behind [ none ↦ some next | some rest' ↦ find_loop fuel next rest' ]
      ]

  find_from : ConfigValue Double → Bytes → Option (ConfigValue Double)
  unfolding find_loop
  find_from root [] = some root
  find_from root (c ∷ s) = find_loop (suc (length (c ∷ s))) root (c ∷ s)

  unfoldable pub find : Config Double → Bytes → Result (Option (ConfigValue Double))
  unfolding find_from
  find config path =
      if config.loaded then ok (find_from config.root path) else throws (codes "config not loaded")

  unfoldable pub node_at : Config Double → Bytes → Result (ConfigValue Double)
  node_at config path = do
    found ← find config path
    elim found [
      | some v ↦ ok v
      | none ↦ throws (codes "config key '" ++ (path ++ codes "' not found"))
    ]

  unfoldable pub has : Config Double → Bytes → Result Bool
  has config path = do found ← find config path; ok (elim found [ some v ↦ true | none ↦ false ])

-- A format that is not `Auto` is taken.
abbrev pub resolve : ConfigFormat → ConfigFormat → ConfigFormat
resolve auto other = other
resolve json other = json

abbrev pub resolve_file : ConfigFormat → Bytes → Result ConfigFormat
resolve_file auto name = config_format_from_extension name
resolve_file json name = ok json

-- The configuration after a parse, and what `loadFromString` returns or throws.
pub loaded_as :
    {Double : Type 0}
    → Config Double
    → ConfigFormat
    → Result (ConfigValue Double)
    → Config Double × Result Bool
loaded_as config resolved (ok root) =
    (record { format = resolved; root = root; loaded = true }, ok true)
loaded_as config resolved (throws e) = (config, throws e)

module _ {Double : Type 0} (parser : Bytes → Document Double) where
  unfoldable pub load_string : Config Double → Bytes → ConfigFormat → Config Double × Result Bool
  unfolding loaded_as
  load_string config content format =
      let resolved = resolve format config.format in
      loaded_as config resolved (parse_config parser content resolved)

  pub load_resolved : Config Double → Bytes → Result ConfigFormat → Config Double × Result Bool
  load_resolved config content (ok resolved) = load_string config content resolved
  load_resolved config content (throws e) = (config, throws e)

  unfoldable pub load_file : Config Double → Bytes → FileRead → Config Double × Result Bool
  unfolding load_resolved
  load_file config path not_opened =
      (config, throws (codes "cannot open config file '" ++ (path ++ codes "'")))
  load_file config path read_failed =
      (config, throws (codes "cannot read config file '" ++ (path ++ codes "'")))
  load_file config path (contents content) =
      load_resolved config content (resolve_file config.format path)
