-- ===== src/Counters/Sections/Isolated.antt =====
-- That `split_counter_sections` (main.py) gives each counter the lines below its own header and no others.
use net_latency_lab.Base.{
  String, Bool, true, false, Option, none, some, List, [], ◌∷◌, ◌++◌, if◌then◌else◌, ◌≡◌, refl, ap,
  ◌∙◌, inl, inr, All, any, arith, Bool-cases,
}
use net_latency_lab.Python.Error.{Result, ok, err}
use net_latency_lab.Counters.Text.{splitlines}
use net_latency_lab.Counters.Sections.{
  is_header, section_name, is_some, missing, missing_all, section, flushed, split_lines,
  split_counter_sections,
}
use net_latency_lab.Verdict.State.{Probe, lookup}
use text.Mathlib.Text.{◌==◌}
use text.Mathlib.TextEquality.{eq_iff}
use net_latency_lab.Counters.Sections.Lines.{
  appended, splitter, split_line-header, split_lines-body, lookup-flushed, known-flushed,
}

-- What a command prints: a header line and the lines of its counter, none of them a header.
pub record Block : Type 0 where
  pub header : String
  pub body : List String

abbrev pub IsBlock : Block → Type 0
IsBlock b = (is_header b.header ≡ true) × All (λ line. is_header line ≡ false) b.body

abbrev pub printed : List Block → List String
printed [] = []
printed (b ∷ blocks) = b.header ∷ (b.body ++ printed blocks)

-- The lines of the last block of that name.
abbrev pub or_last : Option (List String) → Bool → List String → Option (List String)
or_last (some lines) here body = some lines
or_last none here body = if here then some body else none

abbrev pub last_section : String → List Block → Option (List String)
last_section name [] = none
last_section name (b ∷ blocks) =
    or_last (last_section name blocks) (section_name b.header == name) b.body

abbrev pub section_or : Option (List String) → Option Probe → Option Probe
section_or none other = other
section_or (some lines) other = some (section lines)

section_or-last :
    (last : Option (List String)) (here : Bool) (body : List String) (other : Option Probe)
    → section_or last (if here then some (section body) else other)
      ≡ section_or (or_last last here body) other
section_or-last none true body other = refl
section_or-last none false body other = refl
section_or-last (some lines) here body other = refl

lookup-split_lines :
    (name : String) (blocks : List Block) (captured : List (String × Probe))
    (current : Option String) (lines : List String)
    → is_some (lookup name captured) ≡ true
    → All IsBlock blocks
    → lookup name (split_lines (splitter captured current lines) (printed blocks))
      ≡ section_or (last_section name blocks) (lookup name (flushed captured current lines))
unfolding split_lines
lookup-split_lines name [] captured current lines known ok_blocks = refl
lookup-split_lines name (b ∷ blocks) captured current lines known ((header, plain), ok_blocks) =
    let before = flushed captured current lines in
    let before_known = known-flushed name captured current lines known in
    let title = section_name b.header in
    let now : Option String = if is_some (lookup title before) then some title else none in
    ap (λ s. lookup name (split_lines s (b.body ++ printed blocks)))
      (split_line-header captured current lines b.header header)
    ∙ ap (lookup name) (split_lines-body before now [] b.body (printed blocks) plain)
    ∙ lookup-split_lines name blocks before now (appended now [] b.body) before_known ok_blocks
    ∙ ap (section_or (last_section name blocks))
        (lookup-flushed name title before b.body before_known)
    ∙ section_or-last (last_section name blocks) (title == name) b.body (lookup name before)

lookup-missing_all :
    (name : String) (names : List String)
    → any (λ n. n == name) names ≡ true
    → lookup name (missing_all names) ≡ some (missing name)
lookup-missing_all name [] h = cc
lookup-missing_all name (n ∷ names) h = elim (Bool-cases (n == name)) [
  | inl same ↦ rw (same, (eq_iff n name).0 same)
  | inr other ↦ ground (arith, other, lookup-missing_all name names)
]

abbrev pub section_in : Result (List (String × Probe)) → String → Option Probe
section_in (err e) name = none
section_in (ok captured) name = lookup name captured

-- Of a probe that did not fail and whose lines are some lines, none a header, and then sections, each counter that was
-- asked for gets the lines of the last section under its name, and is missing if there is none.
pub split_counter_sections_isolated :
    (names : List String) (name text : String) (preamble : List String) (blocks : List Block)
    → splitlines text ≡ (preamble ++ printed blocks)
    → All (λ line. is_header line ≡ false) preamble
    → All IsBlock blocks
    → any (λ n. n == name) names ≡ true
    → section_in (split_counter_sections (record { value = some text; error = none }) names) name
      ≡ section_or (last_section name blocks) (some (missing name))
unfolding split_counter_sections
split_counter_sections_isolated names name text preamble blocks lines plain ok_blocks asked =
    let found = lookup-missing_all name names asked in
    ap (λ ls. lookup name (split_lines (splitter (missing_all names) none []) ls)) lines
    ∙ ap (lookup name)
        (split_lines-body (missing_all names) none [] preamble (printed blocks) plain)
    ∙ lookup-split_lines name blocks (missing_all names) none [] (ap is_some found) ok_blocks
    ∙ ap (section_or (last_section name blocks)) found
