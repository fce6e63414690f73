-- ===== src/Lru/Whole.antt =====
-- The rest of lru.go: the constructors, and the methods that treat all entries or combine others.
use mappo.Prelude.{
  ℕ, zero, suc, ◌+◌, Option, none, some, List, [], ◌∷◌, ◌++◌, Bool, true, ◌||◌, if◌then◌else◌,
  Comparable, nat_beq, length, get_elem?,
}
use mappo.MapOf.{MapOf}
use mappo.Run.{Run, ok, out_of_fuel, ◌>>=◌}
use mappo.Time.{Int64, is_positive, is_expired, signed_gt, unix_nano}
use mappo.Lru.{Node, Lru, at, evict_down_to, set_with_ttl, drop_node}

-- `MaxSize` if it is positive, or else 1000.
unfoldable pub bound_of : Int64 → ℕ
unfolding is_positive
bound_of max_size = if is_positive max_size then max_size else 1000

-- The test of the methods that walk: `expiration == 0 || expiration > now`.
unfoldable pub is_shown : ℕ → Int64 → Bool
unfolding signed_gt unix_nano
is_shown now expiration = nat_beq expiration 0 || signed_gt expiration (unix_nano now)

module _ {K V : Type 0} where
  -- The loop of `Range`, from the node at `idx`.
  unfoldable pub range_from :
      {S : Type 0} → ℕ → ℕ → (K → V → S → S × Bool) → List (Node K V) → Option ℕ → S → Run S
  unfolding is_shown
  range_from fuel now fn pool none s = ok s
  range_from zero now fn pool (some idx) s = out_of_fuel
  range_from (suc fuel) now fn pool (some idx) s = elim (get_elem? pool idx) [
    | none ↦ ok s
    | some node ↦
        let r = fn node.key node.value s in
        let visited = range_from fuel now fn pool node.next r.0 in
        let skipped = range_from fuel now fn pool node.next s in
        if is_shown now node.expiration then (if r.1 then visited else ok r.0) else skipped
  ]

  -- The calls of `onEviction` that `Clear` makes: of the nodes the map leads to.
  unfoldable pub cleared : List (Node K V) → List (K × ℕ) → List (K × V)
  cleared pool [] = []
  cleared pool ((k, idx) ∷ pairs) = elim (get_elem? pool idx) [
    | none ↦ cleared pool pairs
    | some node ↦ (node.key, node.value) ∷ cleared pool pairs
  ]

module _ {K V : Type 0} ⦃key : Comparable K⦄ {xsync : MapOf K ℕ} where
  -- `NewLRUWithConfig`
  unfoldable pub new_lru_with_config : Int64 → Int64 → Bool → Lru xsync V
  unfolding bound_of
  new_lru_with_config max_size ttl on_eviction = record {
    max_size = bound_of max_size;
    default_ttl = ttl;
    on_eviction = on_eviction;
    evictions = [];
    m = xsync.new_map_of;
    head = none;
    tail = none;
    free_list = none;
    node_pool = [];
    capacity = bound_of max_size;
    size = 0;
  }

  unfoldable pub len : Lru xsync V → ℕ
  len l = l.size

  unfoldable pub clear : Lru xsync V → Lru xsync V
  unfolding cleared
  clear l =
      let told = l.evictions ++ cleared l.node_pool (xsync.range l.m) in
      record l {
        evictions = if l.on_eviction then told else l.evictions;
        m = xsync.clear l.m;
        node_pool = [];
        head = none;
        tail = none;
        free_list = none;
        size = 0;
      }

  -- A walk takes fuel for each node of the array.
  unfoldable pub range : {S : Type 0} → ℕ → (K → V → S → S × Bool) → S → Lru xsync V → Run S
  unfolding range_from
  range now fn s l = range_from (suc (length l.node_pool)) now fn l.node_pool l.head s

  -- `Keys` and `Values` have the same loop, and append at each shown node.
  unfoldable pub keys : ℕ → Lru xsync V → Run (List K)
  unfolding range
  keys now l = range now (λ k v seen. (seen ++ k ∷ [], true)) [] l

  unfoldable pub values : ℕ → Lru xsync V → Run (List V)
  unfolding range
  values now l = range now (λ k v seen. (seen ++ v ∷ [], true)) [] l

module _ {K V : Type 0} ⦃key : Comparable K⦄ {xsync : MapOf K ℕ} (zero_key : K)
    (zero_value : V) where
  -- `Set`
  unfoldable pub set_default : ℕ → K → V → Lru xsync V → Run (Lru xsync V)
  unfolding set_with_ttl
  set_default now k v l = set_with_ttl zero_key zero_value now k v l.default_ttl l

  -- The loop runs while `size > maxSize`.
  unfoldable pub resize : Int64 → Lru xsync V → Run (Lru xsync V)
  unfolding evict_down_to bound_of
  resize max_size l =
      evict_down_to zero_key zero_value (suc l.size) (bound_of max_size + 1)
        (record l { max_size = bound_of max_size })

  -- The loop of `PurgeExpired`, from the node at `idx`. The key and the value that `onEviction` gets
  -- are read from the node after it is released.
  unfoldable pub purge_from : ℕ → ℕ → Option ℕ → ℕ → Lru xsync V → Run (ℕ × Lru xsync V)
  unfolding drop_node at is_expired
  purge_from fuel now none removed l = ok (removed, l)
  purge_from zero now (some idx) removed l = out_of_fuel
  purge_from (suc fuel) now (some idx) removed l = elim (get_elem? l.node_pool idx) [
    | none ↦ ok (removed, l)
    | some node ↦
        let kept = purge_from fuel now node.next removed l in
        let purged = do
          l' ← drop_node zero_key zero_value node.key idx l
          node' ← at l'.node_pool idx
          let log = record l' { evictions = l'.evictions ++ (node'.key, node'.value) ∷ [] }
          purge_from fuel now node.next (removed + 1) (if l.on_eviction then log else l')
        in if is_expired now node.expiration then purged else kept
  ]

  unfoldable pub purge_expired : ℕ → Lru xsync V → Run (ℕ × Lru xsync V)
  unfolding purge_from
  purge_expired now l = purge_from (suc (length l.node_pool)) now l.head 0 l
