-- ===== src/Campaign/Schedule/Grid.antt =====
-- The plan of `make_run_tuples` (main.py) against a description of the grid that does not loop.
use mathlib.Core.List.{Mem, Perm, mem-append, not-mem-nil, Mem-prop}
use mathlib.Core.List.Perm
use mathlib.Core.Logic.{∥∥₁_elim, ∥∥₁_map}
use mathlib.Core.Logic.Or
use mathlib.Core.Option.{some-injective}
use net_latency_lab.Base.{
  ℕ, zero, suc, ◌+◌, ◌≡◌, refl, ◌↔◌, inl, inr, Bool, true, false, some, List, [], ◌∷◌, ◌++◌,
  if◌then◌else◌, get_elem?, Bool-cases, arith, subst, sym, not, ◌&&◌,
}
use net_latency_lab.Base.Int.{ℤ}
use net_latency_lab.Campaign.Schedule.{
  RunTuple, Benchmark, Runtime, Config, tuples_of, is_qualification, is_enabled, seed_of, collect,
  make_run_tuples,
}
use net_latency_lab.Campaign.Schedule.Cell.{IsCell, tuples_of-IsCell, IsCell-mem}

abbrev pub select {ℓ} : {A : Type ℓ} → Bool → A × A → A
select true p = p.0
select false p = p.1

abbrev agrees : Bool → Bool → Bool
agrees true b = b
agrees false b = not b

mem_none {ℓ} : {A : Type ℓ} {a : A} (q : Bool) → Mem a (select q ([], [])) → Mem a []
mem_none true m = m
mem_none false m = m

-- The run is a cell of an enabled benchmark, `index` places before which the list begins.
abbrev FromList : Runtime → ℕ → List Benchmark → Bool → RunTuple → Type 0
FromList runtime index benchmarks q t =
    (i : ℕ) × (b : Benchmark) × (get_elem? benchmarks i ≡ some b)
    × (is_enabled b ≡ true)
    × (is_qualification b ≡ q)
    × IsCell runtime (index + i) b t

select-branch {ℓ} :
    {A : Type ℓ} (e k q : Bool) (xs : List A) (p : List A × List A)
    → select q (if e then (if k then (xs ++ p.0, p.1) else (p.0, xs ++ p.1)) else p)
      ≡ (if e && agrees q k then xs ++ select q p else select q p)
select-branch false k q xs p = refl
select-branch true true true xs p = refl
select-branch true true false xs p = refl
select-branch true false true xs p = refl
select-branch true false false xs p = refl

agrees_both : (e k q : Bool) → e && agrees q k ≡ true → (e ≡ true) × (k ≡ q)
agrees_both e k q h = ground arith

agrees_of : (e k q : Bool) → e ≡ true → k ≡ q → e && agrees q k ≡ true
agrees_of e k q h c = ground arith

module _ (runtime : Runtime) (q : Bool) (t : RunTuple) where
  select-collect :
      (index : ℕ) (b : Benchmark) (bs : List Benchmark)
      → select q (collect runtime index (b ∷ bs)) ≡ (
          if is_enabled b && agrees q (is_qualification b)
          then tuples_of runtime index b ++ select q (collect runtime (suc index) bs)
          else select q (collect runtime (suc index) bs))
  unfolding collect
  select-collect index b bs =
      select-branch (is_enabled b) (is_qualification b) q (tuples_of runtime index b)
        (collect runtime (suc index) bs)

  later :
      (index : ℕ) (b : Benchmark) (bs : List Benchmark)
      → FromList runtime (suc index) bs q t
      → FromList runtime index (b ∷ bs) q t
  later index b bs (i, c, e, en, qu, cell) =
      (suc i, c, e, en, qu, subst (λ n. IsCell runtime n c t) (omega arith) cell)

  first :
      (index : ℕ) (b : Benchmark) (bs : List Benchmark)
      → is_enabled b && agrees q (is_qualification b) ≡ true
      → IsCell runtime index b t
      → FromList runtime index (b ∷ bs) q t
  first index b bs h cell =
      let (en, qu) = agrees_both (is_enabled b) (is_qualification b) q h in
      (0, b, refl, en, qu, subst (λ n. IsCell runtime n b t) (omega arith) cell)

  collect-FromList :
      (index : ℕ) (bs : List Benchmark)
      → Mem t (select q (collect runtime index bs))
      → ∥ FromList runtime index bs q t ∥₁
  unfolding collect
  collect-FromList index [] m = absurd (not-mem-nil (mem_none q m))
  collect-FromList index (b ∷ bs) m =
      let m' = rw (select-collect index b bs) at m in
      elim (Bool-cases (is_enabled b && agrees q (is_qualification b))) [
        | inl here ↦
            Or.elim squash₁ (mem-append.0 (rw here at m'))
              (λ n. ∥∥₁_map (tuples_of-IsCell runtime index b t n) (first index b bs here))
              (λ n. ∥∥₁_map (collect-FromList (suc index) bs n) (later index b bs))
        | inr skip ↦ ∥∥₁_map (collect-FromList (suc index) bs (rw skip at m')) (later index b bs)
      ]

  FromList-mem :
      (index : ℕ) (bs : List Benchmark)
      → FromList runtime index bs q t
      → Mem t (select q (collect runtime index bs))
  FromList-mem index [] (i, c, e, en, qu, cell) = cc
  FromList-mem index (b ∷ bs) (zero, c, e, en, qu, cell) =
      let same = some-injective b c e in
      let en' = subst (λ v. is_enabled v ≡ true) (sym same) en in
      let qu' = subst (λ v. is_qualification v ≡ q) (sym same) qu in
      let cell' =
        subst (λ v. IsCell runtime index v t) (sym same)
          (subst (λ n. IsCell runtime n c t) (omega arith) cell) in
      rw (select-collect index b bs, agrees_of (is_enabled b) (is_qualification b) q en' qu')
        (mem-append.1 (Or.inl (IsCell-mem runtime index b t cell')))
  FromList-mem index (b ∷ bs) (suc i, c, e, en, qu, cell) =
      let rest =
        FromList-mem (suc index) bs
          (i, c, e, en, qu, subst (λ n. IsCell runtime n c t) (omega arith) cell) in
      rw (select-collect index b bs)
        (elim (Bool-cases (is_enabled b && agrees q (is_qualification b))) [
          | inl here ↦ rw here (mem-append.1 (Or.inr rest))
          | inr skip ↦ rw skip rest
        ])

-- A run of the plan: a cell of an enabled benchmark, whose place in the list is the run's index.
abbrev pub IsPlanned : Config → Bool → RunTuple → Type 0
IsPlanned config qualification t =
    (b : Benchmark) × (get_elem? config.benchmarks t.benchmark_index ≡ some b)
    × (is_enabled b ≡ true)
    × (is_qualification b ≡ qualification)
    × IsCell config.runtime t.benchmark_index b t

module _ (shuffle : ℤ → List RunTuple → List RunTuple)
    (permutes : (seed : ℤ) (runs : List RunTuple) → Perm (shuffle seed runs) runs)
    (config : Config) where
  select-make_run_tuples :
      (q : Bool)
      → select q (make_run_tuples shuffle config)
        ≡ shuffle (seed_of config.runtime) (select q (collect config.runtime 0 config.benchmarks))
  unfolding make_run_tuples
  select-make_run_tuples true = refl
  select-make_run_tuples false = refl

  IsPlanned-of_FromList :
      (q : Bool) (t : RunTuple)
      → FromList config.runtime 0 config.benchmarks q t
      → IsPlanned config q t
  IsPlanned-of_FromList q t (i, b, e, en, qu, cell) =
      let same : i ≡ t.benchmark_index = omega (arith, cell.at_index) in
      (
        b,
        subst (λ n. get_elem? config.benchmarks n ≡ some b) same e,
        en,
        qu,
        subst (λ n. IsCell config.runtime n b t) (sym cell.at_index) cell,
      )

  FromList_of_planned :
      (q : Bool) (t : RunTuple)
      → IsPlanned config q t
      → FromList config.runtime 0 config.benchmarks q t
  FromList_of_planned q t (b, e, en, qu, cell) =
      (t.benchmark_index, b, e, en, qu, subst (λ n. IsCell config.runtime n b t) (omega arith) cell)

  -- If the shuffle permutes, the two orders hold exactly the planned runs: the cells (repetition,
  -- rate, burst, batch) of each enabled benchmark, the qualification runs in the first order and
  -- all others in the second.
  pub mem-make_run_tuples :
      (q : Bool) (t : RunTuple)
      → Mem t (select q (make_run_tuples shuffle config)) ↔ ∥ IsPlanned config q t ∥₁
  mem-make_run_tuples q t =
      let runs = select q (collect config.runtime 0 config.benchmarks) in
      let same = Perm.mem_iff {a = t} (permutes (seed_of config.runtime) runs) in
      rw (select-make_run_tuples q) (
        λ m.
            ∥∥₁_map (collect-FromList config.runtime q t 0 config.benchmarks (same.0 m))
              (IsPlanned-of_FromList q t),
        λ p. same.1 (
            ∥∥₁_elim p Mem-prop (λ d.
              FromList-mem config.runtime q t 0 config.benchmarks (FromList_of_planned q t d))),
      )
