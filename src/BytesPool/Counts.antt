-- ===== src/BytesPool/Counts.antt =====
-- What the counters of pool.go tell after calls of `Get` and `Put`.
use mappo.Prelude.{
  ℕ, suc, ◌+◌, ◌%◌, ◌^◌, ◌≡◌, refl, ap, sym, ◌∙◌, Option, none, some, List, [], ◌∷◌, Bool, true,
  false, if◌then◌else◌, arith, replicate, Bool-cases, inl, inr,
}
use mathlib.Core.Path.{Path}
use mappo.BytesPool
use mappo.BytesPool.{
  Buffer, BytesPool, BytesPoolOptions, PoolStats, capacity, cap_limit, is_wrong_size, no_counts,
  stats, when_counted, new_bytes_pool_with_options,
}
use mappo.Run.{ok, panic, ok-injective}
use mappo.SyncPool
use mappo.Time.{Int64, is_positive}

-- A call, with the pool's choice or the buffer.
pub data Call : Type 0 where
  get : ℕ → Call
  put : Buffer → Call

unfoldable pub run_call : Call → BytesPool → BytesPool
run_call (get choice) p = (BytesPool.get choice p).1
run_call (put buf) p = BytesPool.put buf p

unfoldable pub run_calls : List Call → BytesPool → BytesPool
run_calls [] p = p
run_calls (c ∷ cs) p = run_calls cs (run_call c p)

-- How many calls of `Get` there are, of `Put`, and of `Put` with a buffer of the wrong size.
unfoldable pub gets : List Call → ℕ
gets [] = 0
gets (get choice ∷ cs) = suc (gets cs)
gets (put buf ∷ cs) = gets cs

unfoldable pub puts : List Call → ℕ
puts [] = 0
puts (get choice ∷ cs) = puts cs
puts (put buf ∷ cs) = suc (puts cs)

unfoldable pub rejected : Int64 → Int64 → List Call → ℕ
rejected size max_cap [] = 0
rejected size max_cap (get choice ∷ cs) = rejected size max_cap cs
rejected size max_cap (put buf ∷ cs) =
    let rest = rejected size max_cap cs in
    if is_wrong_size size max_cap (capacity buf) then suc rest else rest

-- Counters that wrap.
abbrev pub counts : ℕ → ℕ → ℕ → PoolStats
counts hits returned dropped = record {
  hits = hits % 2 ^ 64;
  misses = 0;
  returned = returned % 2 ^ 64;
  dropped = dropped % 2 ^ 64;
}

wrap_suc : (n : ℕ) → (n % 2 ^ 64 + 1) % 2 ^ 64 ≡ (n + 1) % 2 ^ 64
wrap_suc n = omega arith

counts_of : (h h' r r' d d' : ℕ) → h ≡ h' → r ≡ r' → d ≡ d' → counts h r d ≡ counts h' r' d'
counts_of h h' r r' d d' e f g =
    ap (λ x. counts x r d) e ∙ ap (λ x. counts h' x d) f ∙ ap (λ x. counts h' r' x) g

-- `Get` never counts a miss.
get_lem :
    (choice : ℕ) (p : BytesPool) (fresh : Buffer)
    → p.pool.new ≡ some fresh
    → ((BytesPool.get choice p).1.pool.new ≡ some fresh)
      × ((BytesPool.get choice p).1.size ≡ p.size)
      × ((BytesPool.get choice p).1.max_cap ≡ p.max_cap)
      × ((BytesPool.get choice p).1.stats
          ≡ when_counted (λ s. record s { hits = (s.hits + 1) % 2 ^ 64 }) p.stats)
unfolding BytesPool.get
get_lem choice p fresh makes =
    let (buf, got, still) = SyncPool.get_of_new choice p.pool fresh makes in
    rw (BytesPool.get, got) (still, refl, refl, refl)

put_lem :
    (buf : Buffer) (p : BytesPool)
    → ((BytesPool.put buf p).pool.new ≡ p.pool.new)
      × ((BytesPool.put buf p).size ≡ p.size)
      × ((BytesPool.put buf p).max_cap ≡ p.max_cap)
      × ((BytesPool.put buf p).stats
          ≡ when_counted
              (λ s. record s {
                returned = (s.returned + 1) % 2 ^ 64;
                dropped =
                    if is_wrong_size p.size p.max_cap (capacity buf)
                    then (s.dropped + 1) % 2 ^ 64
                    else s.dropped;
              })
              p.stats)
unfolding BytesPool.put SyncPool.put
put_lem buf p = elim (Bool-cases (is_wrong_size p.size p.max_cap (capacity buf))) [
  | inl wrong ↦ rw (BytesPool.put, wrong) (refl, refl, refl, refl)
  | inr right ↦ rw (BytesPool.put, right) (refl, refl, refl, refl)
]

when_counted_if :
    (b : Bool) (f : PoolStats → PoolStats) (s t : PoolStats)
    → f s ≡ t
    → when_counted f (if b then none else some s) ≡ (if b then none else some t)
when_counted_if true f s t e = refl
when_counted_if false f s t e = ap some e

dropped_step :
    (wrong : Bool) (d : ℕ)
    → (if wrong then (d % 2 ^ 64 + 1) % 2 ^ 64 else d % 2 ^ 64)
      ≡ (if wrong then suc d else d) % 2 ^ 64
dropped_step true d = omega arith
dropped_step false d = refl

moved :
    (wrong : Bool) (d n : ℕ) → (if wrong then suc d else d) + n ≡ d + (if wrong then suc n else n)
moved true d n = omega arith
moved false d n = refl

totals :
    (off : Bool) (h h' r r' d d' : ℕ)
    → h ≡ h'
    → r ≡ r'
    → d ≡ d'
    → Path
        (Option PoolStats)
        (if off then none else some (counts h r d))
        (if off then none else some (counts h' r' d'))
totals off h h' r r' d d' e f g =
    ap (λ c. if off then none else some c) (counts_of h h' r r' d d' e f g)

run_calls_lem :
    (off : Bool) (calls : List Call) (p : BytesPool) (fresh : Buffer) (h r d : ℕ)
    → p.pool.new ≡ some fresh
    → p.stats ≡ (if off then none else some (counts h r d))
    → (run_calls calls p).stats ≡ (
        if off
        then none
        else some (counts (h + gets calls) (r + puts calls) (d + rejected p.size p.max_cap calls)))
unfolding run_calls run_call gets puts rejected
run_calls_lem off [] p fresh h r d makes e =
    e ∙ totals off _ _ _ _ _ _ (omega arith) (omega arith) (omega arith)
run_calls_lem off (get choice ∷ cs) p fresh h r d makes e =
    let (makes', size, limit, s) = get_lem choice p fresh makes in
    let q = (BytesPool.get choice p).1 in
    let now =
      s
      ∙ ap (when_counted (λ s. record s { hits = (s.hits + 1) % 2 ^ 64 })) e
      ∙ when_counted_if off (λ s. record s { hits = (s.hits + 1) % 2 ^ 64 }) (counts h r d)
          (counts (h + 1) r d)
          (ap
            (λ (x : ℕ). record {
              hits = x;
              misses = 0;
              returned = r % 2 ^ 64;
              dropped = d % 2 ^ 64;
            })
            (wrap_suc h)) in
    run_calls_lem off cs q fresh (h + 1) r d makes' now
    ∙ totals off _ _ _ _ _ _ (omega arith) refl (
        ap (λ (x : ℕ). d + x)
          (ap (λ n. rejected n q.max_cap cs) size ∙ ap (λ n. rejected p.size n cs) limit))
run_calls_lem off (put buf ∷ cs) p fresh h r d makes e =
    let (same, size, limit, s) = put_lem buf p in
    let q = BytesPool.put buf p in
    let wrong = is_wrong_size p.size p.max_cap (capacity buf) in
    let d' = if wrong then suc d else d in
    let add = λ (s : PoolStats). record s {
      returned = (s.returned + 1) % 2 ^ 64;
      dropped = if wrong then (s.dropped + 1) % 2 ^ 64 else s.dropped;
    } in
    let now =
      s
      ∙ ap (when_counted add) e
      ∙ when_counted_if off add (counts h r d) (counts h (r + 1) d') (
          ap
            (λ (x : ℕ). record {
              hits = h % 2 ^ 64;
              misses = 0;
              returned = x;
              dropped = if wrong then (d % 2 ^ 64 + 1) % 2 ^ 64 else d % 2 ^ 64;
            })
            (wrap_suc r)
          ∙ ap
              (λ (x : ℕ). record {
                hits = h % 2 ^ 64;
                misses = 0;
                returned = (r + 1) % 2 ^ 64;
                dropped = x;
              })
              (dropped_step wrong d)) in
    run_calls_lem off cs q fresh h (r + 1) d' (same ∙ makes) now
    ∙ totals off _ _ _ _ _ _ refl (omega arith) (
        ap (λ (x : ℕ). d' + x)
          (ap (λ n. rejected n q.max_cap cs) size ∙ ap (λ n. rejected p.size n cs) limit)
        ∙ moved wrong d (rejected p.size p.max_cap cs))

read_lem :
    (off : Bool) (p : BytesPool) (c : PoolStats)
    → p.stats ≡ (if off then none else some c)
    → stats p ≡ (if off then no_counts else c)
unfolding stats
read_lem true p c e = rw e refl
read_lem false p c e = rw e refl

zero_add : (n : ℕ) → 0 + n ≡ n
zero_add n = omega arith

-- The counters tell how many calls there were of each kind, and no misses.
pub stats-run_calls :
    (opt : BytesPoolOptions) (p : BytesPool) (calls : List Call)
    → new_bytes_pool_with_options opt ≡ ok p
    → stats (run_calls calls p) ≡ (
        if opt.no_stats
        then no_counts
        else counts (gets calls) (puts calls) (rejected opt.size (cap_limit opt) calls))
unfolding new_bytes_pool_with_options stats
stats-run_calls opt p calls made = elim (Bool-cases (is_positive opt.size)) [
  | inr bad ↦ absurd (let stuck : panic ≡ ok p = rw bad at made in cc)
  | inl positive ↦
      let is = ok-injective _ p (rw positive at made) in
      let fresh : Buffer = record { bytes = replicate opt.size 0; len = opt.size } in
      let starts : p.stats ≡ (if opt.no_stats then none else some (counts 0 0 0)) =
        ap (λ q. q.stats) (sym is) in
      let run =
        run_calls_lem opt.no_stats calls p fresh 0 0 0 (ap (λ q. q.pool.new) (sym is)) starts in
      read_lem opt.no_stats (run_calls calls p) _ (
        run
        ∙ totals opt.no_stats _ _ _ _ _ _ (zero_add (gets calls)) (zero_add (puts calls)) (
            zero_add (rejected p.size p.max_cap calls)
            ∙ ap (λ q. rejected q.size q.max_cap calls) (sym is)))
]
