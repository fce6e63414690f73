-- ===== src/Lru/Place.antt =====
-- Where lru.go keeps the node of a key, in a state that stands for a list of entries.
use mappo.Prelude.{
  ℕ, suc, ◌≡◌, ◌≤◌, refl, Option, none, some, List, ◌∷◌, ◌++◌, arith, length, Comparable, ap, sym,
  ◌∙◌,
}
use mathlib.Core.Path.{subst}
use mappo.MapOf.{MapOf}
use mappo.Pairs.{lookup, remove, split_of_lookup, remove_middle, length-remove}
use mappo.Lru.{Lru, find_node}
use mappo.Lru.Holds.{Holds}
use mappo.Lru.Links.{Slot, Cells}
use mappo.Lru.Models.{
  Models, Stored, stored, stored?, entries, lookup-entries, remove-entries, find_node_absent,
}

module _ {V : Type 0} where
  slot_of_stored :
      (o : Option (Slot V)) (s : Stored V)
      → stored? o ≡ some s
      → (slot : Slot V) × (o ≡ some slot) × (stored slot ≡ s)
  slot_of_stored none s e = cc
  slot_of_stored (some slot) s e = (slot, refl, cc)

  none_of_stored : (o : Option (Slot V)) → stored? o ≡ none → o ≡ none
  none_of_stored none e = refl
  none_of_stored (some slot) e = cc

module _ {K V : Type 0} ⦃key : Comparable K⦄ where
  -- An entry that is taken out and put back does not make the entries more.
  pub one_back :
      (k : K) (es : List (K × V)) (s : V) (n : ℕ)
      → lookup k es ≡ some s
      → length es ≤ n
      → suc (length (remove k es)) ≤ n
  one_back k es s n e h = ground (arith, length-remove k es)

-- Where a key is linked, with the state read that way.
pub record Place {K V : Type 0} ⦃key : Comparable K⦄ {xsync : MapOf K ℕ} (k : K) (l : Lru xsync V)
    (es : List (K × Stored V)) (s : Stored V) : Type 0 where
  pub models : Models l es
  pub before : Cells K V
  pub behind : Cells K V
  pub slot : Slot V
  pub unused : List ℕ
  pub holds : Holds l (before ++ (k, slot) ∷ behind) unused
  pub shows : stored slot ≡ s
  pub found : lookup k es ≡ some s
  pub others : entries (before ++ behind) ≡ remove k es

module _ {K V : Type 0} ⦃key : Comparable K⦄ {xsync : MapOf K ℕ} where
  pub Place-of_Models :
      (k : K) (l : Lru xsync V) (es : List (K × Stored V)) (s : Stored V)
      → Models l es
      → lookup k es ≡ some s
      → Place k l es s
  Place-of_Models k l es s m found =
      let seen : stored? (lookup k m.cells) ≡ some s =
        sym (lookup-entries k m.cells) ∙ ap (lookup k) m.shows ∙ found in
      let (slot, here, shows) = slot_of_stored (lookup k m.cells) s seen in
      let (a, b, e) = split_of_lookup k slot m.cells here in
      let h = subst (λ x. Holds l x m.unused) e m.holds in
      record {
        models = m;
        before = a;
        behind = b;
        slot = slot;
        unused = m.unused;
        holds = h;
        shows = shows;
        found = found;
        others =
            ap entries (sym (remove_middle k slot a b h.once))
            ∙ sym (remove-entries k (a ++ (k, slot) ∷ b))
            ∙ ap (λ x. remove k (entries x)) (sym e)
            ∙ ap (remove k) m.shows;
      }

  pub cells_absent :
      (k : K) (l : Lru xsync V) (es : List (K × Stored V)) (m : Models l es)
      → lookup k es ≡ none
      → lookup k (Models.cells m) ≡ none
  cells_absent k l es m absent =
      none_of_stored (lookup k m.cells)
        (sym (lookup-entries k m.cells) ∙ ap (lookup k) m.shows ∙ absent)

  pub absent_find_node :
      (k : K) (l : Lru xsync V) (es : List (K × Stored V))
      → Models l es
      → lookup k es ≡ none
      → find_node k l ≡ none
  absent_find_node k l es m absent =
      find_node_absent l k m.cells m.unused m.holds (cells_absent k l es m absent)
