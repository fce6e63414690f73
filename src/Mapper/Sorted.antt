-- ===== src/Mapper/Sorted.antt =====
-- `SortedKeys` of mapper.go.
use mappo.Prelude.{ℕ, List, [], ◌∷◌, Bool, true, false, if◌then◌else◌, ltb, nat_beq, not, ◌&&◌}
use mappo.Mapper.{Mapper, keys}
use mappo.Time.{Int64, signed_gt}

-- `<` of Go's strings, by bytes.
unfoldable pub text_lt : List ℕ → List ℕ → Bool
text_lt s [] = false
text_lt [] (b ∷ t) = true
text_lt (a ∷ s) (b ∷ t) = let rest = text_lt s t in if nat_beq a b then rest else ltb a b

-- A key as an interface value. The signed integers are sign-extended to 64 bits; `F` is the type of
-- floats, and `O` has the values of all other types, named ones too.
pub data AnyKey (F O : Type 0) : Type 0 where
  int int8 int16 int32 int64 : Int64 → AnyKey F O
  uint uint8 uint16 uint32 uint64 : ℕ → AnyKey F O
  float32 float64 : F → AnyKey F O
  text : List ℕ → AnyKey F O
  truth : Bool → AnyKey F O
  other : O → AnyKey F O

module _ {F O : Type 0} (float_lt : F → F → Bool) (sprint : AnyKey F O → List ℕ) where
  -- The function that `SortedKeys` gives to `sort.Slice`, on the two keys; `sprint` is
  -- `fmt.Sprintf("%v", …)`.
  unfoldable pub less : AnyKey F O → AnyKey F O → Bool
  less (int a) b = elim b [ int b ↦ signed_gt b a | _ ↦ false ]
  less (int8 a) b = elim b [ int8 b ↦ signed_gt b a | _ ↦ false ]
  less (int16 a) b = elim b [ int16 b ↦ signed_gt b a | _ ↦ false ]
  less (int32 a) b = elim b [ int32 b ↦ signed_gt b a | _ ↦ false ]
  less (int64 a) b = elim b [ int64 b ↦ signed_gt b a | _ ↦ false ]
  less (uint a) b = elim b [ uint b ↦ ltb a b | _ ↦ false ]
  less (uint8 a) b = elim b [ uint8 b ↦ ltb a b | _ ↦ false ]
  less (uint16 a) b = elim b [ uint16 b ↦ ltb a b | _ ↦ false ]
  less (uint32 a) b = elim b [ uint32 b ↦ ltb a b | _ ↦ false ]
  less (uint64 a) b = elim b [ uint64 b ↦ ltb a b | _ ↦ false ]
  less (float32 a) b = elim b [ float32 b ↦ float_lt a b | _ ↦ false ]
  less (float64 a) b = elim b [ float64 b ↦ float_lt a b | _ ↦ false ]
  less (text a) b = elim b [ text b ↦ text_lt a b | _ ↦ false ]
  less (truth a) b = elim b [ truth b ↦ not a && b | _ ↦ false ]
  less (other a) b = text_lt (sprint (other a)) (sprint b)

  -- `any_key` is the conversion to an interface value, and `sort` is `sort.Slice`.
  unfoldable pub sorted_keys :
      {K V : Type 0}
      → (K → AnyKey F O)
      → ((K → K → Bool) → List K → List K)
      → (List (K × V) → List (K × V))
      → Mapper K V
      → List K
  sorted_keys any_key sort ranged mapper = elim (keys ranged mapper) [
    | [] ↦ []
    | k ∷ ks ↦ sort (λ i j. less (any_key i) (any_key j)) (k ∷ ks)
  ]
