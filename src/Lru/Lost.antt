-- ===== src/Lru/Lost.antt =====
-- `Set` of lru.go when the bound is over the array's capacity, as `Resize` may leave it.
use mappo.Prelude.{
  ℕ, ◌≤◌, ◌<◌, ◌≡◌, refl, Option, none, List, [], ◌∷◌, false, arith, length, Comparable, ap, sym,
  ◌∙◌,
}
use mappo.MapOf.{MapOf}
use mappo.Pairs.{lookup}
use mappo.Run.{ok}
use mappo.Time.{Int64}
use mappo.Lru.{Lru, at_least, evict_down_to, insert_new, set_with_ttl}
use mappo.Lru.Holds.{Free}
use mappo.Lru.Insert.{acquire_none}
use mappo.Lru.Links.{Reads}
use mappo.Lru.Place.{absent_find_node}
use mappo.Lru.Models.{Models, Stored, length-entries}

under_bound : (size n bound : ℕ) → size ≡ n → n < bound → at_least size bound ≡ false
unfolding at_least
under_bound size n bound e h = ground arith

none_of_Free :
    {K V : Type 0} (at : Reads K V) (p : Option ℕ) (fs : List ℕ)
    → length fs ≡ 0
    → Free at p fs
    → p ≡ none
none_of_Free at p [] h free = free
none_of_Free at p (f ∷ fs) h free = absurd (omega arith)

module _ {K V : Type 0} ⦃key : Comparable K⦄ {xsync : MapOf K ℕ} (zero_key : K)
    (zero_value : V) where
  -- When as many entries are stored as the array has room for, and the bound is larger still,
  -- `SetWithTTL` of a new key does nothing at all.
  pub set_with_ttl-lost :
      (k : K) (v : V) (now : ℕ) (ttl : Int64) (l : Lru xsync V) (es : List (K × Stored V))
      → Models l es
      → l.capacity ≤ length es
      → length es < l.max_size
      → lookup k es ≡ none
      → set_with_ttl zero_key zero_value now k v ttl l ≡ ok l
  unfolding set_with_ttl insert_new evict_down_to
  set_with_ttl-lost k v now ttl l es m full under absent =
      let len : length m.cells ≡ length es = sym (length-entries m.cells) ∙ ap length m.shows in
      let still = under_bound l.size (length es) l.max_size (m.holds.counted ∙ len) under in
      let no_free =
        none_of_Free _ l.free_list m.unused (omega (arith, len, m.holds.total, m.holds.roomy, full))
          m.holds.free in
      let no_node =
        acquire_none zero_key zero_value l no_free (omega (arith, len, m.holds.total, full)) in
      rw (absent_find_node k l es m absent, set_with_ttl, still, no_node) refl
