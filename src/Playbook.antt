-- ===== src/Playbook.antt =====
-- pkg/playbook/types.go
pub mod Loader
use Prim.Native.Char.{Char}
use Prim.Native.Nat.{◌/◌, ◌%◌}
use Prim.Native.String
use helvilette.Prelude.{ℕ, zero, suc, String, Option, List, [], ◌∷◌}
use helvilette.Manifest.{Manifest}

-- `mod_time` in nanoseconds.
pub record Playbook : Type 0 where
  pub id : String
  pub name : String
  pub path : String
  pub full_path : String
  pub mod_time : ℕ
  pub manifest : Option Manifest

-- `hash[:8]`
abbrev pub take {ℓ} : {A : Type ℓ} → ℕ → List A → List A
take zero xs = []
take (suc n) [] = []
take (suc n) (x ∷ xs) = x ∷ take n xs

abbrev hex_digit : ℕ → Char
hex_digit n = String.char_at "0123456789abcdef" n

-- `hex.EncodeToString`
abbrev pub encode_hex : List ℕ → String
encode_hex [] = ""
encode_hex (byte ∷ bytes) =
    String.◌∷◌ (hex_digit (byte / 16)) (String.◌∷◌ (hex_digit (byte % 16)) (encode_hex bytes))

-- The hash function `sha256.Sum256` is a parameter.
unfoldable pub generate_id : (String → List ℕ) → String → String
generate_id sha256 path = encode_hex (take 8 (sha256 path))
