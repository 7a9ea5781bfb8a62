-- ===== src/Config/Lookup/Laws.antt =====
-- Loading is all or nothing.
use moban.Config.Value.{Result, ok, throws, ConfigValue}
use moban.Config.Json.{Document, ConfigFormat, parse_config}
use moban.Config.Lookup.{
  Config, FileRead, not_opened, read_failed, contents, resolve, resolve_file, load_string,
  load_resolved, loaded_as, load_file,
}
use moban.Prelude.{◌≡◌, refl, ◌⊎◌, inl, inr, Bool, true, Bytes, []}

module _ {Double : Type 0} (parser : Bytes → Document Double) where
  -- A load that succeeds leaves the tree that the parser made of the text and the format that it was
  -- read in; one that throws leaves the configuration as it was.
  abbrev pub Atomic : Config Double → Bytes → Config Double × Result Bool → Type 0
  Atomic config content r =
      ((tree : ConfigValue Double) × (format : ConfigFormat) × (parse_config parser content format
          ≡ ok tree)
        × (r ≡ (record { format = format; root = tree; loaded = true }, ok true)))
      ⊎ ((r.0 ≡ config) × ((e : Bytes) × (r.1 ≡ throws e)))

  -- The bytes of the file, if it was read.
  abbrev pub text : FileRead → Bytes
  text not_opened = []
  text read_failed = []
  text (contents content) = content

  loaded_as-Atomic :
      (config : Config Double) (content : Bytes) (format : ConfigFormat)
      (r : Result (ConfigValue Double))
      → parse_config parser content format ≡ r
      → Atomic config content (loaded_as config format r)
  unfolding loaded_as
  loaded_as-Atomic config content format (ok root) e = inl (root, format, e, refl)
  loaded_as-Atomic config content format (throws m) e = inr (refl, (m, refl))

  load_resolved-Atomic :
      (config : Config Double) (content : Bytes) (r : Result ConfigFormat)
      → Atomic config content (load_resolved parser config content r)
  unfolding load_resolved load_string
  load_resolved-Atomic config content (ok format) =
      loaded_as-Atomic config content (resolve format config.format)
        (parse_config parser content (resolve format config.format)) refl
  load_resolved-Atomic config content (throws e) = inr (refl, (e, refl))

  -- Whatever the file system answers and whatever the file holds, `load_file` either replaces the tree
  -- by the one that the parser makes of the file's text and returns true, or throws and leaves the
  -- configuration as it was.
  pub load_file-Atomic :
      (config : Config Double) (path : Bytes) (answer : FileRead)
      → Atomic config (text answer) (load_file parser config path answer)
  unfolding load_file
  load_file-Atomic config path not_opened = inr (refl, (_, refl))
  load_file-Atomic config path read_failed = inr (refl, (_, refl))
  load_file-Atomic config path (contents content) =
      load_resolved-Atomic config content (resolve_file config.format path)
