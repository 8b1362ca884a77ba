-- ===== src/Base/Members.antt =====
-- Membership in the lists that nested loops build.
use mathlib.Core.List.{
  Mem-prop, List, [], ◌∷◌, ◌++◌, Mem, mem-cons, not-mem-nil, mem-append, mem-cons_self,
  mem-cons_of_mem,
}
use mathlib.Core.Logic.{◌↔◌, ∥∥₁_elim, ∥∥₁_map}
use mathlib.Core.Logic.Or
use mathlib.Core.Path.{subst}

module _ {ℓ κ} {A : Type ℓ} {B : Type κ} where
  -- `[y for x in xs for y in f(x)]`
  abbrev pub concat_map : (A → List B) → List A → List B
  concat_map f [] = []
  concat_map f (x ∷ xs) = f x ++ concat_map f xs

  mem_of_mem-concat_map :
      (f : A → List B) (b : B) (xs : List A)
      → Mem b (concat_map f xs)
      → ∥ ((a : A) × Mem a xs × Mem b (f a)) ∥₁
  mem_of_mem-concat_map f b [] m = absurd (not-mem-nil m)
  mem_of_mem-concat_map f b (x ∷ xs) m =
      Or.elim squash₁ (mem-append.0 m) (λ here. ∣ (x, mem-cons_self, here) ∣₁)
        (λ later.
          ∥∥₁_map (mem_of_mem-concat_map f b xs later)
            (λ (a, ma, mb). (a, mem-cons_of_mem x ma, mb)))

  mem-concat_map_of_mem :
      (f : A → List B) {a : A} {b : B} (xs : List A)
      → Mem a xs
      → Mem b (f a)
      → Mem b (concat_map f xs)
  mem-concat_map_of_mem f [] ma mb = absurd (not-mem-nil ma)
  mem-concat_map_of_mem f {a} {b} (x ∷ xs) ma mb =
      Or.elim Mem-prop (mem-cons.0 ma) (λ e. mem-append.1 (Or.inl (subst (λ v. Mem b (f v)) e mb)))
        (λ later. mem-append.1 (Or.inr (mem-concat_map_of_mem f xs later mb)))

  pub mem-concat_map :
      (f : A → List B) (b : B) (xs : List A)
      → Mem b (concat_map f xs) ↔ ∥ ((a : A) × Mem a xs × Mem b (f a)) ∥₁
  mem-concat_map f b xs = (
    mem_of_mem-concat_map f b xs,
    λ t. ∥∥₁_elim t Mem-prop (λ (a, ma, mb). mem-concat_map_of_mem f xs ma mb),
  )
