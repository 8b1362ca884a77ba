-- ===== src/Counters/Sections/Lines.antt =====
-- The steps of the loop of `split_counter_sections` (main.py): a line of a section, a header, a flush.
use net_latency_lab.Base.{
  String, true, false, Option, none, some, List, [], ◌∷◌, ◌++◌, if◌then◌else◌, ◌≡◌, refl, sym, ap,
  ◌∙◌, inl, inr, All, arith, Bool-cases, append-nil, append_assoc,
}
use net_latency_lab.Counters.Sections.{
  is_header, section_name, put, is_some, Splitter, section, flushed, append_if_current, enter,
  split_line, split_lines,
}
use net_latency_lab.Verdict.State.{Probe, lookup}
use text.Mathlib.Text.{◌==◌}
use text.Mathlib.TextEquality.{eq_iff}

lookup-put :
    (n m : String) (p : Probe) (captured : List (String × Probe))
    → lookup n (put m p captured) ≡ (
        if m == n
        then (if is_some (lookup n captured) then some p else none)
        else lookup n captured)
lookup-put n m p [] = ground arith
lookup-put n m p ((key, old) ∷ captured) =
    let ih = lookup-put n m p captured in
    elim (Bool-cases (key == m)) [
      | inl here ↦ let e = (eq_iff key m).0 here in rw (here, e) (ground arith)
      | inr there ↦ elim (Bool-cases (key == n)) [
        | inl found ↦
            let e = (eq_iff key n).0 found in
            elim (Bool-cases (m == n)) [
              | inl clash ↦
                  let absurd : (key == m) ≡ true =
                    (eq_iff key m).1 (e ∙ sym ((eq_iff m n).0 clash)) in
                  ground (arith, absurd, there)
              | inr apart ↦ ground (arith, there, found, apart)
            ]
        | inr further ↦ ground (arith, there, further, ih)
      ]
    ]

abbrev pub appended : Option String → List String → List String → List String
appended none lines body = lines
appended (some name) lines body = lines ++ body

abbrev pub splitter : List (String × Probe) → Option String → List String → Splitter
splitter captured current lines = record { captured = captured; current = current; lines = lines }

split_line-plain :
    (captured : List (String × Probe)) (current : Option String) (lines : List String)
    (line : String)
    → is_header line ≡ false
    → split_line (splitter captured current lines) line
      ≡ splitter captured current (append_if_current current lines line)
unfolding split_line
split_line-plain captured current lines line h = rw h

pub split_line-header :
    (captured : List (String × Probe)) (current : Option String) (lines : List String)
    (line : String)
    → is_header line ≡ true
    → split_line (splitter captured current lines) line
      ≡ enter (flushed captured current lines) (section_name line)
unfolding split_line
split_line-header captured current lines line h = rw h

appended-line :
    (current : Option String) (lines : List String) (line : String) (body : List String)
    → appended current (append_if_current current lines line) body
      ≡ appended current lines (line ∷ body)
appended-line none lines line body = refl
appended-line (some name) lines line body = append_assoc lines (line ∷ []) body

appended-nil : (current : Option String) (lines : List String) → appended current lines [] ≡ lines
appended-nil none lines = refl
appended-nil (some name) lines = append-nil lines

pub split_lines-body :
    (captured : List (String × Probe)) (current : Option String) (lines body rest : List String)
    → All (λ line. is_header line ≡ false) body
    → split_lines (splitter captured current lines) (body ++ rest)
      ≡ split_lines (splitter captured current (appended current lines body)) rest
unfolding split_lines
split_lines-body captured current lines [] rest plain =
    ap (λ ls. split_lines (splitter captured current ls) rest) (sym (appended-nil current lines))
split_lines-body captured current lines (line ∷ body) rest (here, plain) =
    ap (λ s. split_lines s (body ++ rest)) (split_line-plain captured current lines line here)
    ∙ split_lines-body captured current (append_if_current current lines line) body rest plain
    ∙ ap (λ ls. split_lines (splitter captured current ls) rest)
        (appended-line current lines line body)

-- Flushing a section that has just been read.
pub lookup-flushed :
    (name header : String) (captured : List (String × Probe)) (body : List String)
    → is_some (lookup name captured) ≡ true
    → lookup name (
        flushed captured
          (if is_some (lookup header captured) then some header else none)
          (appended (if is_some (lookup header captured) then some header else none) [] body))
      ≡ (if header == name then some (section body) else lookup name captured)
lookup-flushed name header captured body known =
    elim (Bool-cases (is_some (lookup header captured))) [
      | inl wanted ↦
          rw wanted (ground (arith, known, lookup-put name header (section body) captured))
      | inr other ↦ elim (Bool-cases (header == name)) [
        | inl same ↦
            let e = (eq_iff header name).0 same in
            let clash : is_some (lookup header captured) ≡ true =
              ap (λ (n : String). is_some (lookup n captured)) e ∙ known in
            ground (arith, clash, other)
        | inr apart ↦ rw (other, apart)
      ]
    ]

pub known-flushed :
    (name : String) (captured : List (String × Probe)) (current : Option String)
    (lines : List String)
    → is_some (lookup name captured) ≡ true
    → is_some (lookup name (flushed captured current lines)) ≡ true
known-flushed name captured none lines known = known
known-flushed name captured (some m) lines known =
    ground (arith, known, lookup-put name m (section lines) captured)
