-- ===== src/Process/Workload/Instrumented.antt =====
-- What `instrument_workload` (main.py) makes of a command.
use net_latency_lab.Base.{
  ℕ, zero, suc, ◌<◌, String, false, Option, none, some, List, [], ◌∷◌, ◌++◌, length, length-append,
  take, drop, ◌≡◌, refl, sym, ap, ◌∙◌, subst, ◌↔◌, inl, inr, arith, Bool-cases,
}
use net_latency_lab.Base.Int.{ℤ, pos, negsuc, pos_part}
use net_latency_lab.Python.Error.{ok}
use net_latency_lab.Process.Workload.{shim, is_out_of_range, instrument_workload}

-- The command is a wrapper and a workload, and the shim stands between them.
pub record Wraps (command : List String) (index : ℤ) (path : String) (result : List String)
    : Type 0 where
  pub wrapper : List String
  pub program : String
  pub arguments : List String
  pub split : command ≡ wrapper ++ program ∷ arguments
  pub placed : index ≡ pos (length wrapper)
  pub shimmed : result ≡ wrapper ++ shim path ++ program ∷ arguments

-- Either nothing is tracked and the command stays as it is, or the workload at the index is wrapped.
pub IsInstrumented : List String → Option ℤ → Option String → List String → Type 0
IsInstrumented command none none result = result ≡ command
IsInstrumented command none (some path) result = ⊥
IsInstrumented command (some index) none result = ⊥
IsInstrumented command (some index) (some path) result = Wraps command index path result

abbrev Split : ℕ → List String → Type 0
Split n command =
    (program : String) × (arguments : List String) × (drop n command ≡ program ∷ arguments)
    × (command ≡ take n command ++ program ∷ arguments)
    × (length (take n command) ≡ n)

Split-take : (n : ℕ) (command : List String) → n < length command → Split n command
Split-take n [] h = absurd (omega arith)
Split-take zero (part ∷ command) h = (part, command, refl, refl, refl)
Split-take (suc n) (part ∷ command) h =
    let (program, arguments, dropped, whole, size) = Split-take n command (omega arith) in
    (program, arguments, dropped, ap (λ (ps : List String). part ∷ ps) whole, ground (arith, size))

take-length : (wrapper rest : List String) → take (length wrapper) (wrapper ++ rest) ≡ wrapper
take-length [] rest = refl
take-length (part ∷ wrapper) rest = ap (λ (ps : List String). part ∷ ps) (take-length wrapper rest)

drop-length : (wrapper rest : List String) → drop (length wrapper) (wrapper ++ rest) ≡ rest
drop-length [] rest = refl
drop-length (part ∷ wrapper) rest = drop-length wrapper rest

in_range :
    (index : ℤ) (command : List String)
    → is_out_of_range index command ≡ false
    → index ≡ pos (pos_part index)
in_range (pos n) command h = refl
in_range (negsuc n) command h = ground arith

length-split :
    (wrapper : List String) (program : String) (arguments : List String)
    → length wrapper < length (wrapper ++ program ∷ arguments)
length-split wrapper program arguments = omega (arith, length-append wrapper (program ∷ arguments))

Wraps-known :
    (command : List String) (index : ℤ) (path : String) (result : List String)
    → Wraps command index path result
    → is_out_of_range index command ≡ false
Wraps-known command index path result w =
    let inside = length-split w.wrapper w.program w.arguments in
    subst (λ (c : List String). is_out_of_range index c ≡ false) (sym w.split)
      (subst (λ (i : ℤ). is_out_of_range i (w.wrapper ++ w.program ∷ w.arguments) ≡ false)
        (sym w.placed) (ground arith))

Wraps-shimmed :
    (command : List String) (index : ℤ) (path : String) (result : List String)
    → Wraps command index path result
    → take (pos_part index) command ++ shim path ++ drop (pos_part index) command ≡ result
Wraps-shimmed command index path result w =
    let rest = w.program ∷ w.arguments in
    rw (w.shimmed, w.split, w.placed, take-length w.wrapper rest, drop-length w.wrapper rest)

-- A command is returned exactly when nothing is tracked and it is the one given, or when the index is that of a part of
-- it and the shim stands before that part; a path without an index, an index without a path and an index out of
-- range raise.
pub instrument_workload-IsInstrumented :
    (command : List String) (index : Option ℤ) (path : Option String) (result : List String)
    → (instrument_workload command index path ≡ ok result)
      ↔ IsInstrumented command index path result
unfolding instrument_workload IsInstrumented
instrument_workload-IsInstrumented command none none result = (λ h. cc, λ h. cc)
instrument_workload-IsInstrumented command none (some path) result = (λ h. cc, λ h. elim h [ ])
instrument_workload-IsInstrumented command (some index) none result = (λ h. cc, λ h. elim h [ ])
instrument_workload-IsInstrumented command (some index) (some path) result =
    elim (Bool-cases (is_out_of_range index command)) [
      | inl out ↦ rw out (λ h. cc, λ w. cc (out, Wraps-known command index path result w))
      | inr known ↦
          let (program, arguments, dropped, whole, size) =
            Split-take (pos_part index) command (ground (arith, known)) in
          rw known (
            λ h. record {
              wrapper = take (pos_part index) command;
              program = program;
              arguments = arguments;
              split = whole;
              placed = in_range index command known ∙ ap pos (sym size);
              shimmed = cc (h, dropped);
            },
            λ w. ap ok (Wraps-shimmed command index path result w),
          )
    ]
