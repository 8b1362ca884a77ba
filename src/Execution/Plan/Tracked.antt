-- ===== src/Execution/Plan/Tracked.antt =====
-- The workload of a profiled run of `execute_run` (main.py): it is found, and it can be instrumented.
use net_latency_lab.Base.{
  ℕ, suc, ◌+◌, ◌<◌, String, Bool, true, false, ◌||◌, Option, some, List, [], ◌∷◌, ◌++◌, length,
  get_elem?, if◌then◌else◌, ◌≡◌, refl, ap, subst, sym, ◌∙◌, inl, inr, arith, Bool-cases,
  append_assoc,
}
use net_latency_lab.Base.Int.{pos}
use net_latency_lab.Python.Error.{Error, Result, ok, err, >>=-BothReturn}
use net_latency_lab.Python.Paths.{path_of, split_slashes, name_of}
use net_latency_lab.Python.Paths.Names.{IsPart, name_of-child}
use net_latency_lab.Process.Workload.{is_out_of_range, instrument_workload}
use net_latency_lab.Execution.Commands.{
  RuntimeConfig, ReceiverConfig, global_prefix, binary_dir, receiver_path, receiver_options,
  receiver_command,
}
use net_latency_lab.Execution.Plan.{
  is_profiled, is_receiver_binary, first_receiver, workload_index_of,
}
use text.Mathlib.Text.{◌==◌}
use text.Mathlib.TextEquality.{eq_iff}

-- The first part of a command that names a receiver, by its position.
pub record IsFound (command : List String) (index : ℕ) : Type 0 where
  pub part : String
  pub here : get_elem? command index ≡ some part
  pub named : is_receiver_binary (name_of part) ≡ true
  pub inside : index < length command

first_receiver-IsFound :
    (start : ℕ) (wrapper : List String) (program : String) (arguments : List String)
    → is_receiver_binary (name_of program) ≡ true
    → (index : ℕ) × (first_receiver start (wrapper ++ program ∷ arguments)
        ≡ ok (pos (start + index)))
      × IsFound (wrapper ++ program ∷ arguments) index
unfolding first_receiver
first_receiver-IsFound start [] program arguments named = (
  0,
  rw named (ap (λ n. ok (pos n)) (omega arith)),
  record { part = program; here = refl; named = named; inside = omega arith },
)
first_receiver-IsFound start (part ∷ wrapper) program arguments named =
    elim (Bool-cases (is_receiver_binary (name_of part))) [
      | inl first ↦ (
        0,
        rw first (ap (λ n. ok (pos n)) (omega arith)),
        record { part = part; here = refl; named = first; inside = omega arith },
      )
      | inr other ↦
          let (index, found, f) =
            first_receiver-IsFound (suc start) wrapper program arguments named in
          (
            suc index,
            rw (other, found) (ap (λ n. ok (pos n)) (omega arith)),
            record {
              part = f.part;
              here = f.here;
              named = f.named;
              inside = omega (arith, f.inside);
            },
          )
    ]

or_last : (a b c : Bool) → (a || b || c) ≡ true → a ≡ false → b ≡ false → c ≡ true
or_last true b c h n m = cc
or_last false true c h n m = cc
or_last false false c h n m = h

receiver_binary-IsPart : (binary : String) → is_receiver_binary binary ≡ true → IsPart binary
unfolding path_of split_slashes
receiver_binary-IsPart binary known = elim (Bool-cases (binary == "receiver_baseline")) [
  | inl e ↦ rw ((eq_iff binary "receiver_baseline").0 e) refl
  | inr n ↦ elim (Bool-cases (binary == "receiver_batched")) [
    | inl e ↦ rw ((eq_iff binary "receiver_batched").0 e) refl
    | inr m ↦ rw ((eq_iff binary "receiver_threaded").0 (or_last _ _ _ known n m)) refl
  ]
]

guarded :
    {A : Type 0} {b : Bool} (e : Error) (value : A)
    → b ≡ false
    → (result : A) × ((if b then err e else ok value) ≡ ok result)
guarded e value fine = (value, rw fine refl)

instrumented_inside :
    (command : List String) (index : ℕ) (path : String)
    → index < length command
    → (result : List String) × (instrument_workload command (some (pos index)) (some path)
        ≡ ok result)
unfolding instrument_workload
instrumented_inside command index path inside =
    let known : is_out_of_range (pos index) command ≡ false = ground (arith, inside) in
    guarded _ _ known

ok_inj : {A : Type 0} {a b : A} → (Result.ok a ≡ Result.ok b) → a ≡ b
ok_inj h = cc

-- The workload of a command is found, and the command can be instrumented at it.
pub record IsTracked (profile : Option String) (command : List String) (path : String)
    : Type 0 where
  pub index : ℕ
  pub indexed : workload_index_of profile command ≡ ok (some (pos index))
  pub found : IsFound command index
  pub result : List String
  pub instrumented : instrument_workload command (some (pos index)) (some path) ≡ ok result

module _ {F : Type 0} (project_root : String) (receiver : ReceiverConfig)
    (runtime : RuntimeConfig F) where
  receiver_path-named :
      is_receiver_binary receiver.binary ≡ true
      → is_receiver_binary (name_of (receiver_path project_root receiver runtime)) ≡ true
  unfolding receiver_path
  receiver_path-named known =
      rw
        (name_of-child (binary_dir project_root runtime) receiver.binary
          (receiver_binary-IsPart receiver.binary known))
        known

  command-split :
      (output stats : String) (batch : ℕ) (command : List String)
      → receiver_command project_root receiver runtime output stats batch ≡ ok command
      → (prefix arguments : List String) × (command
          ≡ prefix ++ receiver_path project_root receiver runtime ∷ arguments)
  unfolding receiver_command
  command-split output stats batch command made =
      let both = >>=-BothReturn (global_prefix runtime) _ made in
      (both.value, receiver_options receiver runtime output stats batch, sym (ok_inj both.second))

  -- For a receiver binary that a configuration may name, and whatever its options and the profiler
  -- before the receiver's command are, a profiled run finds the position of a part of the command
  -- whose file name is that of a receiver, and `instrument_workload` takes that position.
  pub receiver_command-IsTracked :
      (output stats : String) (batch : ℕ) (command : List String)
      → is_receiver_binary receiver.binary ≡ true
      → receiver_command project_root receiver runtime output stats batch ≡ ok command
      → (profile : Option String) → is_profiled profile ≡ true
      → (profiler : List String) (path : String) → IsTracked profile (profiler ++ command) path
  unfolding workload_index_of instrument_workload
  receiver_command-IsTracked output stats batch command known made profile profiled profiler path =
      let (prefix, arguments, split) = command-split output stats batch command made in
      let program = receiver_path project_root receiver runtime in
      let (index, first, found) =
        first_receiver-IsFound 0 (profiler ++ prefix) program arguments
          (receiver_path-named known) in
      let whole : (profiler ++ prefix) ++ program ∷ arguments ≡ profiler ++ command =
        append_assoc profiler prefix (program ∷ arguments)
        ∙ ap (λ (ps : List String). profiler ++ ps) (sym split) in
      let found' = subst (λ ps. IsFound ps index) whole found in
      let run = instrumented_inside (profiler ++ command) index path found'.inside in
      record {
        index = index;
        indexed = rw (profiled, sym whole, first) (ap (λ n. ok (some (pos n))) (omega arith));
        found = found';
        result = run.0;
        instrumented = run.1;
      }
