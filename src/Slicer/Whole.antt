-- ===== src/Slicer/Whole.antt =====
-- The constructors of slicer.go, `Range`, `Snapshot` and `Config`.
use mappo.Prelude.{
  ℕ, zero, suc, ◌+◌, ◌-◌, ◌*◌, ◌/◌, ◌%◌, ◌^◌, Option, none, some, List, [], ◌∷◌, ◌++◌, Bool, true,
  false, if◌then◌else◌, nat_beq, replicate,
}
use Prim.Native.Nat.{max}
use mappo.Run.{Run, ok, ◌>>=◌}
use mappo.Sharded.{and_bits}
use mappo.Slicer.{
  Chunk, Stripe, Slicer, SlicerConfig, slicer_mode_fast, clamp, new_chunk, read_slot, len,
}
use mappo.Time.{Int64, is_positive, signed_gt}

-- `a | b` on `w` bits.
unfoldable pub or_bits : ℕ → ℕ → ℕ → ℕ
or_bits zero a b = 0
or_bits (suc w) a b = or_bits w (a / 2) (b / 2) * 2 + max (a % 2) (b % 2)

-- `for shardCount < n { shardCount <<= 1 }`; from 1 on, 64 rounds leave no bit.
unfoldable pub double_up : ℕ → Int64 → Int64 → Int64
double_up zero n shard_count = shard_count
double_up (suc fuel) n shard_count =
    let rest = double_up fuel n (shard_count * 2 % 2 ^ 64) in
    if signed_gt n shard_count then rest else shard_count

-- The assignments that set each bit below the first.
unfoldable pub smear : Int64 → Int64
smear x =
    let x₁ = or_bits 64 x (x / 2) in
    let x₂ = or_bits 64 x₁ (x₁ / 4) in
    let x₃ = or_bits 64 x₂ (x₂ / 16) in
    let x₄ = or_bits 64 x₃ (x₃ / 256) in or_bits 64 x₄ (x₄ / 65536)

-- The number of stripes; `cpus` is what `runtime.NumCPU` returns.
unfoldable pub stripe_count : Int64 → Int64 → Int64
stripe_count cpus configured =
    let doubled = double_up 64 cpus 1 in
    let chosen = if signed_gt 2 doubled then 2 else doubled in
    let n = if is_positive configured then configured else chosen in
    if nat_beq (and_bits 64 n (n - 1)) 0 then n else (smear (n - 1) + 1) % 2 ^ 64

abbrev pub default_slicer_config : SlicerConfig
default_slicer_config = record { mode = slicer_mode_fast; chunk_size = 1024; shard_count = 0 }

module _ {T : Type 0} where
  unfoldable pub new_slicer_with_config : Int64 → SlicerConfig → Slicer T
  new_slicer_with_config cpus config =
      let chunk_size = if is_positive config.chunk_size then config.chunk_size else 1024 in
      let n = stripe_count cpus config.shard_count in
      record {
        stripes = replicate n (record { chunks = new_chunk chunk_size ∷ []; tail = 0 });
        mask = n - 1;
        length = 0;
        config = record { mode = config.mode; chunk_size = chunk_size; shard_count = n };
        chunk_size = chunk_size;
      }

  unfoldable pub new_slicer : Int64 → Slicer T
  new_slicer cpus = new_slicer_with_config cpus default_slicer_config

  unfoldable pub config : Slicer T → SlicerConfig
  config s = s.config

  -- The loops of `Range`, with the callback's state: whether to go on, and `base + local`, which
  -- counts on from one stripe to the next.
  module _ {S : Type 0} (fn : ℕ → T → S → Bool × S) where
    unfoldable pub range_slots : ℕ → ℕ → List (Option T) → ℕ → S → Run (Bool × (ℕ × S))
    range_slots zero j slots index state = ok (true, (index, state))
    range_slots (suc more) j slots index state = do
      slot ← read_slot slots j
      let skipped = range_slots more (suc j) slots index state
      elim slot [
        | none ↦ skipped
        | some val ↦
            let r = fn index val state in
            let rest = range_slots more (suc j) slots ((index + 1) % 2 ^ 64) r.1 in
            if r.0 then rest else ok (false, (index, r.1))
      ]

    unfoldable pub range_chunks : ℕ → List (Chunk T) → ℕ → S → Run (Bool × (ℕ × S))
    range_chunks chunk_size [] index state = ok (true, (index, state))
    range_chunks chunk_size (c ∷ cs) index state = do
      r ← range_slots (clamp chunk_size c.count) 0 c.slots index state
      let rest = range_chunks chunk_size cs r.1.0 r.1.1
      if r.0 then rest else ok r

    unfoldable pub range_stripes : ℕ → List (Stripe T) → ℕ → S → Run (Bool × (ℕ × S))
    range_stripes chunk_size [] index state = ok (true, (index, state))
    range_stripes chunk_size (st ∷ sts) index state = do
      r ← range_chunks chunk_size st.chunks index state
      let rest = range_stripes chunk_size sts r.1.0 r.1.1
      if r.0 then rest else ok r

    unfoldable pub range : Slicer T → S → Run S
    range s state = do r ← range_stripes s.chunk_size s.stripes 0 state; ok r.1.1

  -- A nil slice is empty.
  unfoldable pub snapshot : Slicer T → Run (List T)
  snapshot s =
      let all = range (λ _ v out. (true, out ++ v ∷ [])) s [] in
      if nat_beq (len s) 0 then ok [] else all
