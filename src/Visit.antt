-- ===== src/Visit.antt =====
-- What a `Range` method shows its callback: pairs in order, until it returns false.
use mappo.Prelude.{◌≡◌, Bool, true, List, [], ◌∷◌, ◌++◌, map, sym, ◌∙◌, if◌then◌else◌}
use mathlib.Core.List.{append-nil, append_assoc}

module _ {ℓ} {K V : Type ℓ} where
  -- A callback run over pairs until it returns false.
  unfoldable pub visit : {S : Type ℓ} → (K → V → S → S × Bool) → List (K × V) → S → S
  visit fn [] s = s
  visit fn ((k, v) ∷ l) s =
      let r = fn k v s in let rest = visit fn l r.0 in if r.1 then rest else r.0

  pub visit_append :
      {A : Type ℓ} (f : K → V → A) (l : List (K × V)) (out : List A)
      → visit (λ k v s. (s ++ f k v ∷ [], true)) l out ≡ out ++ map (λ e. f e.0 e.1) l
  unfolding visit
  visit_append f [] out = sym (append-nil out)
  visit_append f ((k, v) ∷ l) out =
      visit_append f l (out ++ f k v ∷ []) ∙ append_assoc out (f k v ∷ []) _
