-- ===== src/Ordered/Hazards.antt =====
-- Two calls of ordred.go that go wrong: a key that is inserted next to itself, and a `Get` that is
-- overtaken by a deletion, since it takes no lock.
use mappo.Prelude.{
  ℕ, ◌≡◌, refl, ap, sym, ◌∙◌, Option, none, some, List, ◌∷◌, arith, true, false, if◌then◌else◌,
  Comparable, eq_iff, eq_refl, ◌==◌, inl, inr, nat_beq, nat_beq_iff, nat_comparable, Bool-cases,
  Option-cases,
}
use mathlib.Core.Path.{subst}
use mappo.Pairs.{lookup, remove}
use mappo.MapOf.{MapOf}
use mappo.SyncPool.{take_out}
use mappo.Run.{Run, ok, panic, ◌>>=◌}
use mappo.ContainerList
use mappo.ContainerList.{remove_element}
use mappo.Ordered.{
  OrderedElement, Ordered, modify, fill, attach, discard, delete, get, set, put_ordered_element,
  get_ordered_element, remove_old, insert_beside, insert_before, insert_after,
}
use mappo.Ordered.Found.{find_lem, put_lem}
use mappo.Ordered.Cleared.{put_pool}
use mappo.Ordered.Holds.{stored, Models}
use mappo.Ordered.Reads.{get-Models}
use mappo.Ordered.Places.{modify_self, modify_other}

module _ {K V : Type 0} where
  -- A write that sets no element leaves a nil one nil.
  modify_nil :
      (a m : ℕ) (f : OrderedElement K V → OrderedElement K V) (heap : ℕ → OrderedElement K V)
      → ((e : OrderedElement K V) → e.element ≡ none → (f e).element ≡ none)
      → (heap m).element ≡ none
      → (modify a f heap m).element ≡ none
  modify_nil a m f heap keeps nil = elim (Bool-cases (nat_beq a m)) [
    | inl here ↦
        let same = (nat_beq_iff a m).0 here in
        subst (λ n. (modify a f heap n).element ≡ none) same
          (ap (λ (e : OrderedElement K V). e.element) (modify_self a f heap)
            ∙ keeps (heap a) (rw same nil))
    | inr away ↦ ap (λ (e : OrderedElement K V). e.element) (modify_other a m f heap away) ∙ nil
  ]

module _ {K V : Type 0} ⦃key : Comparable K⦄ {xsync : MapOf K ℕ} where
  -- The first step of `Get`, `o.items.Load(key)`, which takes no lock.
  unfoldable pub load_element : K → Ordered xsync V → Option ℕ
  load_element k o = xsync.load k o.items

  -- The second step, `elem.Value`, of the element that was loaded, as it is by then.
  unfoldable pub read_element : Option ℕ → Ordered xsync V → Option V
  read_element none o = none
  read_element (some a) o = some (o.heap a).value

  -- `Get` is the two steps with nothing in between.
  get_steps : (k : K) (o : Ordered xsync V) → get k o ≡ read_element (load_element k o) o
  unfolding get load_element read_element
  get_steps k o = elim (Option-cases (xsync.load k o.items)) [
    | inl e ↦ rw (get, load_element, e) refl
    | inr (a, e) ↦ rw (get, load_element, e) refl
  ]

  put_nil :
      (a : ℕ) (o : Ordered xsync V)
      → o.pooled ≡ true
      → ((put_ordered_element a o).heap a).element ≡ none
  unfolding put_ordered_element
  put_nil a o pooled =
      let clear : OrderedElement K V → OrderedElement K V = λ e. record e { element = none } in
      rw pooled (ap (λ (e : OrderedElement K V). e.element) (modify_self a clear o.heap))

module _ {K V : Type 0} ⦃key : Comparable K⦄ {xsync : MapOf K ℕ} (zero_key : K)
    (zero_value : V) where
  get_nil :
      (choice m : ℕ) (k : K) (v : V) (o : Ordered xsync V)
      → (o.heap m).element ≡ none
      → let r = get_ordered_element zero_key zero_value choice o in
        ((fill r.0 k v r.1).heap m).element ≡ none
  unfolding fill get_ordered_element
  get_nil choice m k v o nil =
      modify_nil _ m (λ e. record e { key = k; value = v }) _ (λ e n. n)
        (elim (Option-cases (if o.pooled then take_out choice o.pool else none)) [
          | inl nothing ↦
              rw (get_ordered_element, nothing)
                (modify_nil o.allocated m
                  (λ e. record { key = zero_key; value = zero_value; element = none }) o.heap
                  (λ e n. refl) nil)
          | inr ((a, rest), found) ↦
              rw (get_ordered_element, found)
                (modify_nil a m (λ e. record e { element = none }) o.heap (λ e n. refl) nil)
        ])

  -- In a concurrent map, `InsertBefore` and `InsertAfter` of a key that is there, next to itself,
  -- panic.
  pub insert_before_self_panics :
      (choice : ℕ) (k : K) (v w : V) (o : Ordered xsync V) (es : List (K × V))
      → Models o es
      → o.pooled ≡ true
      → lookup k es ≡ some w
      → (insert_before zero_key zero_value choice k k v o ≡ panic)
        × (insert_after zero_key zero_value choice k k v o ≡ panic)
  unfolding insert_before insert_after insert_beside remove_old remove_element
      ContainerList.insert_before ContainerList.insert_after
  insert_before_self_panics choice k v w o es m pooled there = elim (find_lem k o es m) [
    | inl (absent, new) ↦ absurd (let e : none ≡ some w = sym new ∙ there in cc)
    | inr p ↦
        let removed = record o {
          order = record o.order { elements = remove p.cell.element o.order.elements };
        } in
        let nil =
          get_nil choice p.cell.address k v (put_ordered_element p.cell.address removed)
            (put_nil p.cell.address removed pooled) in
        (
          rw (insert_before, insert_beside, p.found, remove_old, p.found, p.reads, nil) refl,
          rw (insert_after, insert_beside, p.found, remove_old, p.found, p.reads, nil) refl,
        )
  ]

  -- `Set` of a new key takes the element that was put back last, if the pool hands it out.
  set_taken :
      (j : K) (u : V) (a : ℕ) (pool : List ℕ) (o : Ordered xsync V)
      → o.pooled ≡ true
      → o.pool ≡ a ∷ pool
      → xsync.load j o.items ≡ none
      → (((set zero_key zero_value 0 j u o).heap a).value ≡ u)
        × ((set zero_key zero_value 0 j u o).items ≡ xsync.store j a o.items)
  unfolding set get_ordered_element attach fill take_out
  set_taken j u a pool o pooled last absent =
      let fields : OrderedElement K V → OrderedElement K V = λ e. record e { key = j; value = u } in
      let element : OrderedElement K V → OrderedElement K V =
        λ e. record e { element = some o.order.fresh } in
      let clear : OrderedElement K V → OrderedElement K V = λ e. record e { element = none } in
      let heap = modify a clear o.heap in
      rw (set, absent, get_ordered_element, pooled, last)
        (
          ap (λ (e : OrderedElement K V). e.value)
              (modify_self a element (modify a fields heap)
                ∙ ap element (modify_self a fields heap)),
          refl,
        )

  -- A `Get` between whose two steps the key is deleted and another one is set; the new element is
  -- the one that the pool got last. What `Get` returns, with the map after the calls.
  unfoldable pub get_across : K → K → V → Ordered xsync V → Run (Option V × Ordered xsync V)
  unfolding load_element read_element delete set
  get_across k j u o = do
    let elem = load_element k o
    deleted ← delete k o
    let o' = set zero_key zero_value 0 j u deleted.1
    ok (read_element elem o', o')

  -- `Get` is its two steps, at every key and state. In a well-formed concurrent map, a key is there
  -- and another one is not. A `Get` of the first key, between whose steps that key is deleted and the
  -- other one set, returns the value that was set for the other key, where a `Get` before gives the
  -- key's own value, and one after finds no such key.
  pub get_overtaken :
      (k j : K) (u w : V) (o : Ordered xsync V) (es : List (K × V))
      → Models o es
      → o.pooled ≡ true
      → lookup k es ≡ some w
      → lookup j es ≡ none
      → ((i : K) (p : Ordered xsync V) → get i p ≡ read_element (load_element i p) p)
        × (get k o ≡ some w)
        × (o' : Ordered xsync V) × (get_across k j u o ≡ ok (some u, o'))
        × (get k o' ≡ none)
        × (get j o' ≡ some u)
  unfolding delete discard remove_element get get_across load_element read_element
  get_overtaken k j u w o es m pooled there absent = elim (find_lem k o es m) [
    | inl (_, new) ↦ absurd (let e : none ≡ some w = sym new ∙ there in cc)
    | inr p ↦ elim (find_lem j o es m) [
      | inr q ↦ absurd (let e : none ≡ some q.cell.value = sym absent ∙ q.value in cc)
      | inl (nothing, _) ↦
          let a = p.cell.address in
          let removed = record o {
            items = xsync.delete k o.items;
            order = record o.order { elements = remove p.cell.element o.order.elements };
          } in
          let o' = put_ordered_element a removed in
          let (pool, still, _) = put_pool a removed pooled in
          let (items, _) = put_lem a 0 removed in
          let gone : xsync.load j o'.items ≡ none =
            ap (xsync.load j) items ∙ ground (arith, xsync.load-delete k j o.items, nothing) in
          let apart : (j == k) ≡ false = ground (arith, eq_iff j k, nothing, p.found) in
          let (value, stored) = set_taken j u a o.pool o' still pool gone in
          let unread : xsync.load k (set zero_key zero_value 0 j u o').items ≡ none =
            ap (xsync.load k) stored
            ∙ xsync.load-store j k a o'.items
            ∙ rw apart
                (ap (xsync.load k) items ∙ xsync.load-delete k k o.items ∙ rw (eq_refl k) refl) in
          let run : delete k o ≡ ok (true, o') = rw (delete, p.found, discard, p.reads) refl in
          let o'' = set zero_key zero_value 0 j u o' in
          let there_now : xsync.load j o''.items ≡ some a =
            ap (xsync.load j) stored ∙ xsync.load-store j j a o'.items ∙ rw (eq_refl j) refl in
          (
            get_steps,
            (get-Models k o es m).0 ∙ there,
            o'',
            simp (get_across, load_element, run, p.found) (ap (λ x. ok (some x, o'')) value),
            rw (get, unread) refl,
            rw (get, there_now) (ap (λ x. some x) value),
          )
    ]
  ]
