-- ===== src/Python/Paths.antt =====
-- `PurePosixPath` of pathlib: a path is its parts, and "" and "." are no parts.
pub mod Names
use Prim.Native.Char.{Char, code}
use Prim.Native.String.{[] as end_of_text, ◌∷◌ as char_before, ◌++◌ as str_append}
use net_latency_lab.Base.{
  String, Bool, true, false, ◌||◌, List, [], ◌∷◌, ◌++◌, ◌==◌, if◌then◌else◌, ◌≡◌, refl, ap, ◌∙◌,
  sym, inl, inr, arith, Bool-cases,
}
use net_latency_lab.Python.Show.{join}
use text.Mathlib.Text.{◌==◌ as same}

-- A character before the first text of a split.
abbrev pub push : Char → List String → List String
push c [] = char_before c "" ∷ []
push c (part ∷ parts) = char_before c part ∷ parts

-- `text.split("/")`
unfoldable pub split_slashes : String → List String
split_slashes end_of_text = "" ∷ []
split_slashes (char_before c text) =
    let rest = split_slashes text in if code c == 47 then "" ∷ rest else push c rest

abbrev pub proper_parts : List String → List String
proper_parts [] = []
proper_parts (part ∷ parts) =
    let rest = proper_parts parts in if same part "" || same part "." then rest else part ∷ rest

abbrev pub begins_with_slash : String → Bool
begins_with_slash end_of_text = false
begins_with_slash (char_before c text) = code c == 47

pub record PurePath : Type 0 where
  pub is_absolute : Bool
  pub parts : List String

-- `Path(text)`
unfoldable pub path_of : String → PurePath
unfolding split_slashes
path_of text = record {
  is_absolute = begins_with_slash text;
  parts = proper_parts (split_slashes text);
}

-- `path / text`
unfoldable pub child : PurePath → String → PurePath
unfolding path_of
child path text =
    let right = path_of text in
    if right.is_absolute
    then right
    else record { is_absolute = path.is_absolute; parts = path.parts ++ right.parts }

abbrev pub dot_if_blank : String → String
dot_if_blank end_of_text = "."
dot_if_blank (char_before c text) = char_before c text

-- `str(path)`
unfoldable pub str_path : PurePath → String
unfolding join
str_path path =
    if path.is_absolute
    then str_append "/" (join "/" path.parts)
    else dot_if_blank (join "/" path.parts)

abbrev pub last_or_blank : List String → String
last_or_blank [] = ""
last_or_blank (part ∷ []) = part
last_or_blank (part ∷ next ∷ parts) = last_or_blank (next ∷ parts)

-- `Path(text).name`
unfoldable pub name_of : String → String
unfolding path_of
name_of text = last_or_blank (path_of text).parts

abbrev pub without_last : List String → List String
without_last [] = []
without_last (part ∷ []) = []
without_last (part ∷ next ∷ parts) = part ∷ without_last (next ∷ parts)

-- `path.parent`
unfoldable pub parent : PurePath → PurePath
parent path = record { is_absolute = path.is_absolute; parts = without_last path.parts }
