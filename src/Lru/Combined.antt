-- ===== src/Lru/Combined.antt =====
-- `GetOrSet` and `GetOrCompute` of lru.go.
use mappo.Prelude.{
  ℕ, suc, none, some, Bool, true, false, ◌&&◌, ◌||◌, if◌then◌else◌, Comparable, ◌==◌, nat_beq,
  get_elem?,
}
use mappo.MapOf.{MapOf}
use mappo.Run.{Run, ok, ◌>>=◌}
use mappo.Time.{Int64, signed_gt, unix_nano, deadline}
use mappo.Lru.{
  Lru, evict_down_to, acquire_node, fill_node, get, move_to_front, at, remove_from_list,
  release_node, decrement,
}

-- `not`
abbrev pub negate : Bool → Bool
negate true = false
negate false = true

module _ {K V : Type 0} ⦃key : Comparable K⦄ {xsync : MapOf K ℕ} (zero_key : K)
    (zero_value : V) where
  -- The end of `GetOrSet`: room is made, and a node is taken and filled.
  unfoldable pub insert_value : K → V → Int64 → Lru xsync V → Run ((V × Bool) × Lru xsync V)
  unfolding evict_down_to acquire_node fill_node
  insert_value k v exp l = do
    roomy ← evict_down_to zero_key zero_value (suc l.size) l.max_size l
    (acquired, l') ← acquire_node zero_key zero_value roomy
    elim acquired [
      | none ↦ ok ((zero_value, false), l')
      | some idx ↦ do filled ← fill_node idx k v exp l'; ok ((v, false), filled)
    ]

  -- `GetOrSet` after `Get` found nothing: the key is looked up once more under the lock.
  unfoldable pub set_missing : ℕ → K → V → Int64 → Lru xsync V → Run ((V × Bool) × Lru xsync V)
  unfolding insert_value move_to_front at remove_from_list release_node decrement signed_gt
      unix_nano
  set_missing now k v exp l = elim (xsync.load k l.m) [
    | none ↦ insert_value k v exp l
    | some idx ↦ elim (get_elem? l.node_pool idx) [
      | none ↦ insert_value k v exp l
      | some node ↦
          let current =
            nat_beq node.expiration 0 || negate (signed_gt (unix_nano now) node.expiration) in
          let keep = do
            l' ← move_to_front idx l
            node' ← at l'.node_pool idx
            ok ((node'.value, true), l')
          in let stale = do
            l' ← remove_from_list idx l
            let freed = release_node zero_key zero_value idx l'
            insert_value k v exp (record freed { size = decrement freed.size })
            in if node.key == k && current then keep else stale
    ]
  ]

  -- The readings of the clock: of `Get`, of the deadline, and of the second lookup.
  unfoldable pub get_or_set :
      ℕ → ℕ → ℕ → K → V → Int64 → Lru xsync V → Run ((V × Bool) × Lru xsync V)
  unfolding get set_missing
  get_or_set now now' now'' k v ttl l = do
    (found, l') ← get zero_key zero_value now k l
    elim found [
      | some v' ↦ ok ((v', true), l')
      | none ↦ set_missing now'' k v (deadline now' ttl) l'
    ]

  -- `fn` gives a value and a time to live; it may not call the map.
  unfoldable pub get_or_compute :
      ℕ → ℕ → ℕ → ℕ → K → V × Int64 → Lru xsync V → Run (V × Lru xsync V)
  unfolding get get_or_set
  get_or_compute first now now' now'' k computed l = do
    (found, l') ← get zero_key zero_value first k l
    elim found [
      | some v ↦ ok (v, l')
      | none ↦ do
        (actual, l'') ← get_or_set now now' now'' k computed.0 computed.1 l'
        ok (actual.0, l'')
    ]
