-- ===== src/Otter/Assoc.antt =====
-- An association list without repeated keys meets everything that `Otter` asks.
use mappo.Prelude.{ℕ, refl, [], Comparable, length}
use mappo.MapOf.Assoc.{Assoc, assoc_store, assoc_delete, empty-Once}
use mappo.Otter.{Otter, Pointer, compute_result, set_if_absent_result}
use mappo.Pairs.{lookup, remove, assign, lookup-assign, lookup-remove}

module _ (K : Type 0) ⦃key : Comparable K⦄ where
  unfoldable pub assoc_otter : Otter K
  unfolding lookup remove assign
  assoc_otter = record {
    Map = Assoc K Pointer × ℕ;
    new = λ n. (([], empty-Once K Pointer), n);
    get_if_present = λ k m. lookup k m.0.0;
    set = λ k p m. (assoc_store K Pointer k p m.0, m.1);
    set_if_absent =
        λ k p m. set_if_absent_result (lookup k m.0.0) p m (assoc_store K Pointer k p m.0, m.1);
    compute = λ k fn m.
        compute_result (lookup k m.0.0) (fn (lookup k m.0.0)) m
          (assoc_store K Pointer k (fn (lookup k m.0.0)).0 m.0, m.1)
          (assoc_delete K Pointer k m.0, m.1);
    invalidate = λ k m. (assoc_delete K Pointer k m.0, m.1);
    invalidate_all = λ m. (([], empty-Once K Pointer), m.1);
    evict = λ k m. (assoc_delete K Pointer k m.0, m.1);
    estimated_size = λ m. length m.0.0;
    get_maximum = λ m. m.1;
    stats = λ m. (0, 0, 0);
    all = λ m. m.0.0;
    get-new = λ k n. refl;
    get-set = λ k j p m. lookup-assign k j p m.0.0;
    get-invalidate = λ k j m. lookup-remove k j m.0.0 (m.0.1 j);
    get-invalidate_all = λ k m. refl;
    get-evict = λ k j m. lookup-remove k j m.0.0 (m.0.1 j);
    set_if_absent_lem = λ k p m. refl;
    compute_lem = λ k fn m. refl;
    lookup-all = λ k m. refl;
    all-Once = λ m. m.0.1;
  }
