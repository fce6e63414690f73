-- ===== src/MapOf/Assoc.antt =====
-- An association list without repeated keys meets everything that `MapOf` asks.
use mappo.Prelude.{refl, List, [], Comparable, if◌then◌else◌, arith, length}
use mappo.Pairs.{
  lookup, count, remove, assign, Once, lookup-assign, lookup-remove, count-assign, count-remove-le,
}
use mappo.MapOf.{MapOf, load_or_store_result}

module _ {ℓ} {K V : Type ℓ} ⦃key : Comparable K⦄ where
  pub remove-Once : (k : K) (l : List (K × V)) → Once l → Once (remove k l)
  remove-Once k l h = λ j. omega (arith, h j, count-remove-le k j l)

  pub assign-Once : (k : K) (v : V) (l : List (K × V)) → Once l → Once (assign k v l)
  assign-Once k v l h = λ j. ground (arith, h j, count-assign k j v l)

module _ {ℓ} (K V : Type ℓ) ⦃key : Comparable K⦄ where
  pub empty-Once : Once {K = K} {V = V} []
  unfolding count
  empty-Once = λ j. omega arith

  abbrev pub Assoc : Type ℓ
  Assoc = (l : List (K × V)) × Once l

  abbrev pub assoc_store : K → V → Assoc → Assoc
  assoc_store k v m = (assign k v m.0, assign-Once k v m.0 m.1)

  abbrev pub assoc_delete : K → Assoc → Assoc
  assoc_delete k m = (remove k m.0, remove-Once k m.0 m.1)

  unfoldable pub assoc : MapOf K V
  unfolding lookup remove assign
  assoc = record {
    Map = Assoc;
    new_map_of = ([], empty-Once);
    load = λ k m. lookup k m.0;
    store = assoc_store;
    delete = assoc_delete;
    compute = λ k fn m.
        if (fn (lookup k m.0)).1 then assoc_delete k m else assoc_store k (fn (lookup k m.0)).0 m;
    load_or_store = λ k v m. load_or_store_result (lookup k m.0) v m (assoc_store k v m);
    clear = λ m. ([], empty-Once);
    size = λ m. length m.0;
    range = λ m. m.0;
    load-new_map_of = λ k. refl;
    load-store = λ k j v m. lookup-assign k j v m.0;
    load-delete = λ k j m. lookup-remove k j m.0 (m.1 j);
    load-clear = λ k m. refl;
    compute_lem = λ k fn m. refl;
    load_or_store_lem = λ k v m. refl;
    lookup-range = λ k m. refl;
    range-Once = λ m. m.1;
    size-range = λ m. refl;
  }
