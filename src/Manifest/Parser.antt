-- ===== src/Manifest/Parser.antt =====
-- `ParseFile` of pkg/manifest/parser.go. The file system and the YAML decoder are parameters.
pub mod Laws
use helvilette.Prelude.{String, none, some, Result, ok, err}
use helvilette.Manifest.{Manifest}
use helvilette.Manifest.Validation
use helvilette.Manifest.Validation.{validate}

-- What `os.ReadFile` reports besides the content. `not_exist` is what `os.IsNotExist` recognises.
pub data ReadError : Type 0 where
  not_exist : ReadError
  unreadable : String → ReadError

pub data Error : Type 0 where
  reading : ReadError → Error
  parsing : String → String → Error
  invalid : String → Validation.Error → Error

module _ (read_file : String → Result ReadError String)
    (unmarshal : String → Result String Manifest) where
  check : String → Manifest → Result Error Manifest
  check path m = elim (validate m) [ none ↦ ok m | some e ↦ err (invalid path e) ]

  decode : String → String → Result Error Manifest
  unfolding check
  decode path content = elim (unmarshal content) [
    | err e ↦ err (parsing path e)
    | ok m ↦ check path m
  ]

  unfoldable pub parse_file : String → Result Error Manifest
  unfolding decode
  parse_file path = elim (read_file path) [
    | err e ↦ err (reading e)
    | ok content ↦ decode path content
  ]
