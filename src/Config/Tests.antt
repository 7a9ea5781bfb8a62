-- ===== src/Config/Tests.antt =====
-- The theorems on the configuration, at a small object; the numbers stand for doubles.
use moban.Config.Value.{
  ConfigValue, node, int, object, field, end, Fields, make_object, find_field, child_path, ok,
}
use moban.Config.Json.{
  c_string, Json, uint64, object_type, member, no_member, Document, document, auto, json, convert,
}
use moban.Config.Json.Laws.{Well, convert-Well}
use moban.Config.Lookup.{Config, contents, create, load_file, node_at, child, find, first_segment}
use moban.Config.Lookup.Laws.{Atomic, load_file-Atomic}
use moban.Strings.Case.{same_bytes}
use moban.Prelude.{ℕ, ◌≡◌, refl, true, Bytes, codes, pos, negsuc}

abbrev fields : Fields ℕ
fields = field (codes "port") (node (int (pos 8080)) (codes "port")) end

abbrev settings : ConfigValue ℕ
settings = node (object fields) (codes "")

abbrev port_document : Json ℕ
port_document = object_type (member (codes "port") (uint64 8080) no_member)

converted : convert port_document (codes "") ≡ ok settings
unfolding convert make_object find_field c_string child_path
converted = refl

convert-Well_example : Well settings (codes "")
convert-Well_example = convert-Well port_document (codes "") settings converted

abbrev large : ConfigValue ℕ
large = node (int (negsuc 0)) (codes "n")

converted_large : convert {Double = ℕ} (uint64 18446744073709551615) (codes "n") ≡ ok large
unfolding convert
converted_large = refl

abbrev loaded : Config ℕ
loaded = record { format = json; root = settings; loaded = true }

port_found : node_at loaded (codes "port") ≡ ok (node (int (pos 8080)) (codes "port"))
unfolding node_at find child first_segment find_field same_bytes
port_found = refl

-- A parser that reads every text as that document.
abbrev parser : Bytes → Document ℕ
parser content = document port_document

load_file-Atomic_example :
    Atomic parser
      (create auto)
      (codes "{}")
      (load_file parser (create auto) (codes "a.json") (contents (codes "{}")))
load_file-Atomic_example =
    load_file-Atomic parser (create auto) (codes "a.json") (contents (codes "{}"))
