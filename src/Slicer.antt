-- ===== src/Slicer.antt =====
-- slicer.go: an append-only slice in stripes, each a linked list of chunks. A slot is `some v` once
-- its value is written and marked ready, or, in the safe mode, its pointer stored; the two modes
-- differ in nothing else. The chunks of a stripe stand in a list, in the order of `next`; the pointer
-- `tail` is an index into it, which may lag behind the last chunk.
pub mod Filled
pub mod Append
pub mod Columns
pub mod Rows
pub mod Layout
pub mod Whole
pub mod Visits
pub mod Trips
pub mod Phases
pub mod Overlap
mod Tests
use mappo.Prelude.{
  ℕ, zero, suc, ◌+◌, ◌-◌, ◌*◌, ◌/◌, ◌%◌, ◌^◌, Option, none, some, List, [], ◌∷◌, ◌++◌, Bool, true,
  false, if◌then◌else◌, ltb, leb, nat_beq, length, get_elem?, replicate, ◌&&◌,
}
use mappo.Prelude
use mappo.Run.{Run, ok, panic, out_of_fuel, ◌>>=◌}
use mappo.Sharded.{and_bits}
use mappo.Time.{Int64, is_positive}

pub record Chunk (T : Type 0) : Type 0 where
  pub slots : List (Option T)
  -- An `atomic.Uint32`.
  pub count : ℕ

pub record Stripe (T : Type 0) : Type 0 where
  pub chunks : List (Chunk T)
  pub tail : ℕ

pub data SlicerMode : Type 0 where
  slicer_mode_fast : SlicerMode
  slicer_mode_safe : SlicerMode

pub record SlicerConfig : Type 0 where
  pub mode : SlicerMode
  pub chunk_size : Int64
  pub shard_count : Int64

pub record Slicer (T : Type 0) : Type 0 where
  pub stripes : List (Stripe T)
  pub mask : ℕ
  -- An `atomic.Uint64`.
  pub length : ℕ
  pub config : SlicerConfig
  pub chunk_size : ℕ

-- `if int(count) > s.chunkSize { count = s.chunkSize }`
unfoldable pub clamp : ℕ → ℕ → ℕ
clamp chunk_size count = if ltb chunk_size count then chunk_size else count

module _ {T : Type 0} where
  -- `new(T)` stored, or the value written and the flag set, at a position.
  unfoldable pub write_slot : ℕ → T → List (Option T) → Run (List (Option T))
  write_slot pos v slots =
      if ltb pos (length slots) then ok (Prelude.set slots pos (some v)) else panic

  unfoldable pub new_chunk : ℕ → Chunk T
  new_chunk chunk_size = record { slots = replicate chunk_size none; count = 0 }

  -- What `Append` leaves in the tail chunk when it is full: it raised the count all the same.
  abbrev pub counted : Chunk T → Chunk T
  counted c = record c { count = (c.count + 1) % 2 ^ 32 }

  abbrev pub rolled_back : Chunk T → Chunk T
  rolled_back c = record c { count = (c.count + 2 ^ 32 - 1) % 2 ^ 32 }

  -- The loop of `Append` on its stripe.
  unfoldable pub append_loop : ℕ → ℕ → T → Stripe T → Run (Stripe T)
  append_loop zero chunk_size v st = out_of_fuel
  append_loop (suc fuel) chunk_size v st = elim (get_elem? st.chunks st.tail) [
    | none ↦ panic
    | some tail ↦
        let raised = counted tail in
        let fits = do
          slots' ← write_slot tail.count v raised.slots
          ok (record st {
            chunks = Prelude.set st.chunks st.tail (record raised { slots = slots' });
          })
        in let linked = do
          slots' ← write_slot 0 v (new_chunk chunk_size).slots
          let fresh : Chunk T = record { slots = slots'; count = 1 }
          ok (record {
            chunks = Prelude.set st.chunks st.tail raised ++ fresh ∷ [];
            tail = suc st.tail;
          })
          in let again = append_loop fuel chunk_size v (record {
            chunks = Prelude.set st.chunks st.tail (rolled_back raised);
            tail = suc st.tail;
          }) in
            if ltb tail.count chunk_size
            then fits
            else if nat_beq (suc st.tail) (length st.chunks)
            then linked
            else again
  ]

  -- The loop has as many rounds as there are chunks from the tail on.
  unfoldable pub append : T → Slicer T → Run (ℕ × Slicer T)
  append v s =
      let idx = s.length in
      let counted_up = (s.length + 1) % 2 ^ 64 in
      let at = and_bits 64 idx s.mask in
      elim (get_elem? s.stripes at) [
        | none ↦ panic
        | some st ↦ do
          st' ← append_loop (length st.chunks) s.chunk_size v st
          ok (idx, record s { stripes = Prelude.set s.stripes at st'; length = counted_up })
      ]

  -- A slot that is not ready, or whose pointer is nil, reads nothing.
  unfoldable pub read_slot : List (Option T) → ℕ → Run (Option T)
  read_slot slots i = elim (get_elem? slots i) [ none ↦ panic | some slot ↦ ok slot ]

  unfoldable pub get_loop : ℕ → ℕ → List (Chunk T) → Run (Option T)
  get_loop chunk_size remaining [] = ok none
  get_loop chunk_size remaining (c ∷ cs) =
      let count = clamp chunk_size c.count in
      let rest = get_loop chunk_size (remaining - count) cs in
      let here = if leb chunk_size remaining then ok none else read_slot c.slots remaining in
      if ltb remaining count then here else rest

  unfoldable pub get : ℕ → Slicer T → Run (Option T)
  get index s =
      let found : Run (Option T) = elim (get_elem? s.stripes (and_bits 64 index s.mask)) [
        | none ↦ panic
        | some st ↦ get_loop s.chunk_size (index / length s.stripes) st.chunks
      ] in
      if leb s.length index then ok none else found

  unfoldable pub len : Slicer T → ℕ
  len s = s.length
