-- ===== src/FilePath.antt =====
-- What the program uses of Go's path/filepath, on Unix: texts with "/" as the separator.
mod Tests
use Prim.Native.Char.{Char}
use Prim.Native.String
use mathlib.Core.List.{reverse}
use helvilette.Prelude.Text.{split}
use helvilette.Prelude.{
  String, Bool, true, false, List, [], ◌∷◌, ◌==◌, ◌||◌, is_char, if◌then◌else◌,
}

infixr 65 ◌<>◌
abbrev pub ◌<>◌ : String → String → String
s <> t = String.◌++◌ s t

-- `strings.Join(parts, "/")`
join_slash : List String → String
join_slash [] = ""
join_slash (part ∷ []) = part
join_slash (part ∷ next ∷ parts) = part <> "/" <> join_slash (next ∷ parts)

unfoldable pub is_abs : String → Bool
is_abs String.[] = false
is_abs (String.◌∷◌ c s) = is_char b'/' c

-- One part of `Clean`; the parts kept so far have the last one at the head.
clean_part : Bool → List String → String → List String
clean_part rooted kept part =
    if part == "" || part == "."
    then kept
    else if part == ".."
    then elim kept [
      | [] ↦ if rooted then [] else ".." ∷ []
      | last ∷ before ↦ if last == ".." then ".." ∷ last ∷ before else before
    ]
    else part ∷ kept

clean_parts : Bool → List String → List String → List String
clean_parts rooted kept [] = reverse kept
clean_parts rooted kept (part ∷ parts) = clean_parts rooted (clean_part rooted kept part) parts

unfoldable pub clean : String → String
unfolding clean_parts clean_part split join_slash is_abs
clean path =
    let body = join_slash (clean_parts (is_abs path) [] (split b'/' path)) in
    if is_abs path then "/" <> body else if body == "" then "." else body

-- `Join`: the empty elements in front are dropped, the rest joined and cleaned.
unfoldable pub join : List String → String
unfolding clean join_slash
join [] = ""
join (element ∷ elements) =
    let rest = join elements in
    if element == "" then rest else clean (join_slash (element ∷ elements))

last_part : String → List String → String
last_part found [] = found
last_part found (part ∷ parts) = last_part (if part == "" then found else part) parts

-- `Base`: the last element, without the slashes behind it.
unfoldable pub base : String → String
unfolding last_part split
base path =
    let last = last_part "" (split b'/' path) in
    if path == "" then "." else if last == "" then "/" else last

-- All but the last of the parts, each with its slash.
leading : List String → String
leading [] = ""
leading (part ∷ []) = ""
leading (part ∷ next ∷ parts) = part <> "/" <> leading (next ∷ parts)

-- `Dir`: what stands before the last slash, cleaned.
unfoldable pub dir : String → String
unfolding clean leading split
dir path = clean (leading (split b'/' path))
