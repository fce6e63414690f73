-- ===== src/Ordered/Ends.antt =====
-- `PopFront` and `PopBack` of ordred.go against a list of pairs.
use mappo.Prelude.{ℕ, ◌≡◌, refl, ap, sym, ◌∙◌, Option, none, some, List, [], ◌∷◌, ◌++◌, Comparable}
use mathlib.Core.List.{map-append, head?, get_last?, tail, drop_last, append-nil}
use mathlib.Core.Path.{subst}
use mappo.MapOf.{MapOf}
use mappo.Run.{Run, ok}
use mappo.Ordered.{Ordered}
use mappo.Ordered.Found.{discard-Holds}
use mappo.Ordered.Holds.{Cell, Cells, place, entry, entries, Holds, Models, Stored-split}
use mappo.Ordered.Reads.{last-places, get_last?_end}
use mappo.Ordered.Whole.{pop, pop_front, pop_back, last_element}

module _ {ℓ} {A : Type ℓ} where
  drop_last_end : (a : List A) (x : A) → drop_last (a ++ x ∷ []) ≡ a
  drop_last_end [] x = refl
  drop_last_end (y ∷ []) x = refl
  drop_last_end (y ∷ z ∷ a) x = ap (◌∷◌ y) (drop_last_end (z ∷ a) x)

module _ {K V : Type 0} ⦃key : Comparable K⦄ {xsync : MapOf K ℕ} where
  pop_lem :
      (o : Ordered xsync V) (a b : Cells K V) (c : K × Cell V)
      → Holds o (a ++ c ∷ b)
      → (o' : Ordered xsync V) × (pop (place c) o ≡ ok (some (entry c), o')) × Holds o' (a ++ b)
  unfolding pop
  pop_lem o a b c h =
      let (o', run, holds, shows) = discard-Holds o a b c.0 c.1 h in
      let reads = (Stored-split o.heap a (c ∷ b) h.kept.at).1.0 in
      (o', rw (pop, reads, run, shows) refl, holds)

  pop_front-Holds :
      (o : Ordered xsync V) (cs : Cells K V)
      → Holds o cs
      → (o' : Ordered xsync V) × (pop_front o ≡ ok (head? (entries cs), o'))
        × Models o' (tail (entries cs))
  unfolding pop_front
  pop_front-Holds o [] h = (
    o,
    ap
        (λ l. elim l as (λ _. Run (Option (K × V) × Ordered xsync V)) [
          | [] ↦ ok (none, o)
          | e ∷ l' ↦ pop e o
        ])
        h.kept.order,
    record { cells = []; holds = h; shows = refl },
  )
  pop_front-Holds o (c ∷ cs) h =
      let (o', run, holds) = pop_lem o [] cs c h in
      (
        o',
        rw (pop_front, h.kept.order, run) refl,
        record { cells = cs; holds = holds; shows = refl },
      )

  pop_back-Holds :
      (o : Ordered xsync V) (cs : Cells K V)
      → Holds o cs
      → (o' : Ordered xsync V) × (pop_back o ≡ ok (get_last? (entries cs), o'))
        × Models o' (drop_last (entries cs))
  unfolding pop_back
  pop_back-Holds o [] h = (
    o,
    ap
        (λ l. elim l as (λ _. Run (Option (K × V) × Ordered xsync V)) [
          | [] ↦ ok (none, o)
          | e ∷ l' ↦ pop (last_element e l') o
        ])
        h.kept.order,
    record { cells = []; holds = h; shows = refl },
  )
  pop_back-Holds o (c ∷ cs) h =
      let (a, d, e, last) = last-places c cs in
      let (o', run, holds) = pop_lem o a [] d (subst (Holds o) e h) in
      let shows : entries (c ∷ cs) ≡ entries a ++ entry d ∷ [] =
        ap entries e ∙ map-append entry a (d ∷ []) in
      (
        o',
        rw (pop_back, h.kept.order, last, run)
            (ap (λ r. ok (r, o')) (sym (ap get_last? shows ∙ get_last?_end (entries a) (entry d)))),
        record {
          cells = a;
          holds = subst (Holds o') (append-nil a) holds;
          shows = sym (ap drop_last shows ∙ drop_last_end (entries a) (entry d));
        },
      )

  -- `PopFront` and `PopBack` take the pair at their end, if there is one.
  pub pop-Models :
      (o : Ordered xsync V) (es : List (K × V))
      → Models o es
      → ((o' : Ordered xsync V) × (pop_front o ≡ ok (head? es, o')) × Models o' (tail es))
        × ((o' : Ordered xsync V) × (pop_back o ≡ ok (get_last? es, o')) × Models o' (drop_last es))
  pop-Models o es m =
      let (o₁, run₁, models₁) = pop_front-Holds o m.cells m.holds in
      let (o₂, run₂, models₂) = pop_back-Holds o m.cells m.holds in
      (
        (
          o₁,
          run₁ ∙ ap (λ l. ok (head? l, o₁)) m.shows,
          subst (λ l. Models o₁ (tail l)) m.shows models₁,
        ),
        (
          o₂,
          run₂ ∙ ap (λ l. ok (get_last? l, o₂)) m.shows,
          subst (λ l. Models o₂ (drop_last l)) m.shows models₂,
        ),
      )
