-- ===== src/Otter/Laws.antt =====
-- What an entry is after a call of `Compute`, from the laws of `Otter`.
use mappo.Prelude.{
  ◌≡◌, refl, ap, sym, ◌∙◌, Option, none, some, if◌then◌else◌, Comparable, ◌==◌, eq_iff, Bool-cases,
  inl, inr,
}
use mappo.Otter.{Otter, Pointer, ComputeOp, write_op, cancel_op, invalidate_op, compute_result}

abbrev pub entry_after : Option Pointer → Pointer × ComputeOp → Option Pointer
entry_after old (p, write_op) = some p
entry_after old (p, cancel_op) = old
entry_after old (p, invalidate_op) = none

module _ {K : Type 0} ⦃key : Comparable K⦄ (otter : Otter K) where
  get_of_result :
      (k j : K) (r : Pointer × ComputeOp) (m : otter.Map)
      → otter.get_if_present j
          (compute_result
            (otter.get_if_present k m)
            r
            m
            (otter.set k r.0 m)
            (otter.invalidate k m)).1
        ≡ (if k == j then entry_after (otter.get_if_present k m) r else otter.get_if_present j m)
  get_of_result k j (p, write_op) m = otter.get-set k j p m
  get_of_result k j (p, invalidate_op) m = otter.get-invalidate k j m
  get_of_result k j (p, cancel_op) m = elim (Bool-cases (k == j)) [
    | inl e ↦ rw e (ap (λ i. otter.get_if_present i m) (sym ((eq_iff k j).0 e)))
    | inr e ↦ rw e refl
  ]

  pub get-compute :
      (k j : K) (fn : Option Pointer → Pointer × ComputeOp) (m : otter.Map)
      → otter.get_if_present j (otter.compute k fn m).1 ≡ (
          if k == j
          then entry_after (otter.get_if_present k m) (fn (otter.get_if_present k m))
          else otter.get_if_present j m)
  get-compute k j fn m =
      ap (λ r. otter.get_if_present j r.1) (otter.compute_lem k fn m)
      ∙ get_of_result k j (fn (otter.get_if_present k m)) m
