-- ===== src/Python/Paths/Names.antt =====
-- The name of a path that was joined, written out and read again.
use Prim.Native.Char.{Char, char, code}
use Prim.Native.String.{[] as end_of_text, ◌∷◌ as char_before, ◌++◌ as str_append}
use net_latency_lab.Base.{
  String, Bool, true, false, ◌||◌, List, [], ◌∷◌, ◌++◌, ◌==◌, if◌then◌else◌, ◌≡◌, refl, ap, ◌∙◌,
  sym, inl, inr, Bool-cases,
}
use net_latency_lab.Python.Show.{join}
use net_latency_lab.Python.Paths.{
  PurePath, push, split_slashes, proper_parts, path_of, child, dot_if_blank, str_path,
  last_or_blank, name_of,
}
use text.Mathlib.TextLemmas.{nil-append, cons-append, append_assoc}
use text.Mathlib.Text.{◌==◌ as same}

push-append :
    (c : Char) (part : String) (parts rest : List String)
    → push c (part ∷ parts ++ rest) ≡ push c (part ∷ parts) ++ rest
push-append c part parts rest = refl

-- A split is never empty.
split_slashes-cons :
    (text : String) → (part : String) × (parts : List String) × (split_slashes text ≡ part ∷ parts)
unfolding split_slashes
split_slashes-cons end_of_text = ("", [], refl)
split_slashes-cons (char_before c text) =
    let (part, parts, e) = split_slashes-cons text in
    elim (Bool-cases (code c == 47)) [
      | inl slash ↦ ("", split_slashes text, rw slash refl)
      | inr other ↦ (char_before c part, parts, rw (other, e) refl)
    ]

abbrev slash : Char
slash = char 47 tt

slash-append : (text : String) → str_append "/" text ≡ char_before slash text
slash-append text =
    cons-append slash "" text ∙ ap (λ (t : String). char_before slash t) (nil-append text)

split_slashes-append :
    (text last : String)
    → split_slashes (str_append text (str_append "/" last))
      ≡ split_slashes text ++ split_slashes last
unfolding split_slashes
split_slashes-append end_of_text last =
    rw (nil-append (str_append "/" last), slash-append last) refl
split_slashes-append (char_before c text) last =
    let (part, parts, e) = split_slashes-cons text in
    let rest = split_slashes-append text last in
    elim (Bool-cases (code c == 47)) [
      | inl is_slash ↦ rw (cons-append c text (str_append "/" last), rest, is_slash) refl
      | inr other ↦ rw (cons-append c text (str_append "/" last), rest, other, e) refl
    ]

proper_parts-append :
    (parts rest : List String)
    → proper_parts (parts ++ rest) ≡ proper_parts parts ++ proper_parts rest
proper_parts-append [] rest = refl
proper_parts-append (part ∷ parts) rest = elim (Bool-cases (same part "" || same part ".")) [
  | inl skipped ↦ rw (skipped, proper_parts-append parts rest) refl
  | inr kept ↦ rw (kept, proper_parts-append parts rest) refl
]

last_or_blank-append :
    (parts : List String) (part : String) → last_or_blank (parts ++ part ∷ []) ≡ part
last_or_blank-append [] part = refl
last_or_blank-append (p ∷ []) part = refl
last_or_blank-append (p ∷ q ∷ parts) part = last_or_blank-append (q ∷ parts) part

-- A text that is one part of a path: it holds no slash, and is neither blank nor a dot.
abbrev pub IsPart : String → Type 0
IsPart part = path_of part ≡ record { is_absolute = false; parts = part ∷ [] }

name_of-append :
    (text part : String) → IsPart part → name_of (str_append text (str_append "/" part)) ≡ part
unfolding name_of path_of
name_of-append text part is_part =
    rw
      (
        split_slashes-append text part,
        proper_parts-append (split_slashes text) (split_slashes part),
      )
      (rw (ap (λ (p : PurePath). p.parts) is_part)
        (last_or_blank-append (proper_parts (split_slashes text)) part))

name_of-IsPart : (part : String) → IsPart part → name_of part ≡ part
unfolding name_of
name_of-IsPart part is_part = ap (λ (p : PurePath). last_or_blank p.parts) is_part

join-snoc :
    (first : String) (parts : List String) (part : String)
    → join "/" (first ∷ parts ++ part ∷ [])
      ≡ str_append (join "/" (first ∷ parts)) (str_append "/" part)
unfolding join
join-snoc first [] part = refl
join-snoc first (next ∷ parts) part =
    rw
      (
        join-snoc next parts part,
        append_assoc first (str_append "/" (join "/" (next ∷ parts))) (str_append "/" part),
        append_assoc "/" (join "/" (next ∷ parts)) (str_append "/" part),
      )
      refl

join_empty : (last : String) → str_append "/" last ≡ str_append "" (str_append "/" last)
join_empty last = sym (nil-append (str_append "/" last))

not_blank : (part : String) → IsPart part → dot_if_blank part ≡ part
unfolding path_of split_slashes
not_blank end_of_text h = cc (ap (λ (p : PurePath). p.parts) h)
not_blank (char_before c text) h = refl

dot_if_blank-append :
    (text part : String)
    → dot_if_blank (str_append text (str_append "/" part)) ≡ str_append text (str_append "/" part)
dot_if_blank-append end_of_text part = rw (nil-append (str_append "/" part), slash-append part) refl
dot_if_blank-append (char_before c text) part = rw (cons-append c text (str_append "/" part)) refl

abbrev placed : PurePath → PurePath → PurePath
placed path right =
    if right.is_absolute
    then right
    else record { is_absolute = path.is_absolute; parts = path.parts ++ right.parts }

child-IsPart :
    (path : PurePath) (part : String)
    → IsPart part
    → child path part ≡ record { is_absolute = path.is_absolute; parts = path.parts ++ part ∷ [] }
unfolding child
child-IsPart path part is_part = ap (placed path) is_part

name_of-str_path :
    (is_absolute : Bool) (parts : List String) (part : String)
    → IsPart part
    → name_of (str_path (record { is_absolute = is_absolute; parts = parts ++ part ∷ [] })) ≡ part
unfolding str_path join
name_of-str_path true [] part is_part = rw (join_empty part) (name_of-append "" part is_part)
name_of-str_path false [] part is_part = rw (not_blank part is_part) (name_of-IsPart part is_part)
name_of-str_path true (first ∷ parts) part is_part =
    rw
      (
        join-snoc first parts part,
        sym (append_assoc "/" (join "/" (first ∷ parts)) (str_append "/" part)),
      )
      (name_of-append (str_append "/" (join "/" (first ∷ parts))) part is_part)
name_of-str_path false (first ∷ parts) part is_part =
    rw (join-snoc first parts part, dot_if_blank-append (join "/" (first ∷ parts)) part)
      (name_of-append (join "/" (first ∷ parts)) part is_part)

-- The name of a path to which one part was joined is that part.
pub name_of-child :
    (path : PurePath) (part : String) → IsPart part → name_of (str_path (child path part)) ≡ part
name_of-child path part is_part =
    rw (child-IsPart path part is_part) (name_of-str_path path.is_absolute path.parts part is_part)
