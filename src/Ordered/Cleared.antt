-- ===== src/Ordered/Cleared.antt =====
-- `Clear` of ordred.go against a list of pairs.
use mappo.Prelude.{
  ℕ, ◌+◌, ◌≤◌, ◌≡◌, refl, ap, sym, ◌∙◌, List, [], ◌∷◌, arith, true, if◌then◌else◌, nat_comparable,
  ltb, Comparable, inl, inr, Bool-cases,
}
use mathlib.Core.Path.{subst}
use mappo.ContainerList.{init}
use mappo.Pairs.{to_nat, uses, lookup, count}
use mappo.MapOf.{MapOf}
use mappo.Ordered.{Ordered, put_ordered_element}
use mappo.Ordered.Holds.{Cells, held, places, Models}
use mappo.Ordered.Whole.{clear, put_all}

module _ {K V : Type 0} ⦃key : Comparable K⦄ {xsync : MapOf K ℕ} where
  pub put_pool :
      (a : ℕ) (o : Ordered xsync V)
      → o.pooled ≡ true
      → ((put_ordered_element a o).pool ≡ a ∷ o.pool)
        × ((put_ordered_element a o).pooled ≡ true)
        × ((put_ordered_element a o).allocated ≡ o.allocated)
  unfolding put_ordered_element
  put_pool a o pooled = rw pooled (refl, refl, refl)

  put_all_lem :
      (o : Ordered xsync V) (cs : Cells K V)
      → o.pooled ≡ true
      → ((i : ℕ) → uses i (put_all (places cs) o).pool ≡ held i cs + uses i o.pool)
        × ((put_all (places cs) o).allocated ≡ o.allocated)
  unfolding put_all
  put_all_lem o [] pooled = (λ i. omega arith, refl)
  put_all_lem o (c ∷ cs) pooled =
      let (pool, still, allocated) = put_pool c.1.address o pooled in
      let (all, same) = put_all_lem (put_ordered_element c.1.address o) cs still in
      (λ i. omega (arith, all i, ap (uses i) pool), same ∙ allocated)

  -- The list and `items` are empty, and the pool has no address twice.
  empty-Models :
      (o : Ordered xsync V) (m : xsync.Map)
      → ((i : ℕ) → uses i o.pool ≤ to_nat (ltb i o.allocated))
      → Models (record o { items = xsync.clear m; order = init o.order }) []
  unfolding count lookup
  empty-Models o m pool = record {
    cells = [];
    holds = record {
      kept = record {
        at = tt;
        order = refl;
        elements = λ i. omega arith;
        addresses = λ i. omega (arith, pool i);
        once = λ j. omega arith;
      };
      maps = λ k. xsync.load-clear k m;
    };
    shows = refl;
  }

  pub clear-Models : (o : Ordered xsync V) (es : List (K × V)) → Models o es → Models (clear o) []
  unfolding clear
  clear-Models o es m =
      let kept = m.holds.kept in
      let emptied : Ordered xsync V → Ordered xsync V =
        λ x. record x { items = xsync.clear x.items; order = init x.order } in
      let freed = put_all (places m.cells) o in
      elim (Bool-cases o.pooled) [
        | inl pooled ↦
            let (pool, allocated) = put_all_lem o m.cells pooled in
            subst (λ x. Models x [])
              (sym (
                ap (λ b. emptied (if b then put_all o.order.elements o else o)) pooled
                ∙ ap (λ l. emptied (put_all l o)) kept.order))
              (empty-Models freed freed.items
                (λ i. ground (arith, kept.addresses i, pool i, ap (ltb i) allocated)))
        | inr plain ↦
            subst (λ x. Models x [])
              (ap (λ b. emptied (if b then put_all o.order.elements o else o)) (sym plain))
              (empty-Models o o.items (λ i. omega (arith, kept.addresses i)))
      ]
