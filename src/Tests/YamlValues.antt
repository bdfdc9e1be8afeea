-- ===== src/Tests/YamlValues.antt =====
-- A section that names a YAML file, and what the parser reads from it.
use c5store.Base.{ℕ, some, none, Option, List, returned}
use c5store.Text.{Str, str_eq, bytes_of}
use c5store.Fixtures.Numbers.{kinds, natural}
use c5store.Crates.Documents.{YamlValue, entry, no_entries}
use c5store.Value.{null, string, Fields, end, field}
use c5store.Providers.{C5ValueDeserializer}
use c5store.Tests.Config.{a}

-- `k: { .provider: "resources", path: "/x", encoding: "utf8", format: "yaml" }`
abbrev pub section : Fields
section = field (bytes_of ".provider") (string (bytes_of "resources")) (
    field (bytes_of "path") (string (bytes_of "/x")) (
      field (bytes_of "encoding") (string (bytes_of "utf8"))
        (field (bytes_of "format") (string (bytes_of "yaml")) end)))

abbrev pub k : Str
k = bytes_of "k"

-- The file holds `a: 1`.
abbrev pub document : YamlValue kinds.Number
document = YamlValue.mapping (entry (YamlValue.string a) (YamlValue.number (natural 1)) no_entries)

abbrev pub from_slice : List ℕ → Option (YamlValue kinds.Number)
from_slice content = some document

abbrev pub from_str : Str → Option (YamlValue kinds.Number)
from_str text = none

abbrev pub no_json : C5ValueDeserializer
no_json raw_value = returned null
