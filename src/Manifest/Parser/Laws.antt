-- ===== src/Manifest/Parser/Laws.antt =====
-- What a manifest file that is accepted holds, and which failure each step reports.
use helvilette.Prelude.{
  ap, sym, ◌∙◌, String, ◌≡◌, ◌↔◌, none, Result, ok, arith, Result-cases, Option-cases, inl, inr,
}
use helvilette.Manifest.{Manifest}
use helvilette.Manifest.Validation.{validate}
use helvilette.Manifest.Validation.Laws.{IsDispatchable, validate_iff}
use helvilette.Manifest.Parser.{ReadError, parse_file}

module _ (read_file : String → Result ReadError String)
    (unmarshal : String → Result String Manifest) (path : String) where
  accepted :
      (m m' : Manifest) (content : String)
      → read_file path ≡ ok content
      → unmarshal content ≡ ok m'
      → parse_file read_file unmarshal path ≡ ok m
      → (m' ≡ m) × (validate m ≡ none)
  unfolding parse_file
  accepted m m' content found decoded h = elim (Option-cases (validate m')) [
    | inl fine ↦ let same : m' ≡ m = cc in (same, ap validate (sym same) ∙ fine)
    | inr (e, bad) ↦ absurd (ground arith)
  ]

  -- A file is accepted exactly when it can be read and decoded to a manifest that can be dispatched.
  pub parse_file_iff :
      (m : Manifest)
      → (parse_file read_file unmarshal path ≡ ok m) ↔ (
          (content : String) × (read_file path ≡ ok content)
          × (unmarshal content ≡ ok m)
          × IsDispatchable m)
  unfolding parse_file
  parse_file_iff m = (
    λ h. elim (Result-cases (read_file path)) [
      | inl (e, missing) ↦ absurd (ground arith)
      | inr (content, found) ↦ elim (Result-cases (unmarshal content)) [
        | inl (e, broken) ↦ absurd (ground arith)
        | inr (m', decoded) ↦
            let (same, fine) = accepted m m' content found decoded h in
            (content, found, decoded ∙ ap ok same, (validate_iff m).0 fine)
      ]
    ],
    λ (content, found, decoded, fit). ground (arith, (validate_iff m).1 fit),
  )
