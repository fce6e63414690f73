-- ===== src/Time.antt =====
-- Nanoseconds and deadlines as `int64`, the way concurrent.go and lru.go compute them.
use mappo.Prelude.{
  ℕ, ◌+◌, ◌%◌, ◌^◌, ◌≤◌, ◌<◌, ◌≡◌, Bool, true, false, ◌⊎◌, ◌&&◌, arith, ltb, if◌then◌else◌,
}

-- A bit pattern of 64 bits; those from 2 ^ 63 on stand for the negative numbers.
abbrev pub Int64 : Type 0
Int64 = ℕ

-- `x > 0`
unfoldable pub is_positive : Int64 → Bool
is_positive x = ltb 0 x && ltb x (2 ^ 63)

-- `a > b`: the order of the patterns with the sign bit flipped.
unfoldable pub signed_gt : Int64 → Int64 → Bool
signed_gt a b = ltb ((b + 2 ^ 63) % 2 ^ 64) ((a + 2 ^ 63) % 2 ^ 64)

-- `t.UnixNano()` of a time that lies `t` nanoseconds after the epoch; it wraps.
unfoldable pub unix_nano : ℕ → Int64
unix_nano t = t % 2 ^ 64

-- `if ttl > 0 { exp = time.Now().Add(ttl).UnixNano() }`, with 0 for an entry that never expires.
unfoldable pub deadline : ℕ → Int64 → Int64
unfolding is_positive unix_nano
deadline now ttl = if is_positive ttl then unix_nano (now + ttl) else 0

-- `expiration > 0 && time.Now().UnixNano() > expiration`
unfoldable pub is_expired : ℕ → Int64 → Bool
unfolding is_positive signed_gt unix_nano
is_expired now expiration = is_positive expiration && signed_gt (unix_nano now) expiration

-- Before the year 2262, a deadline has passed exactly when the clock is more than a positive `ttl`
-- past the time of storing; with another `ttl` it never passes.
pub is_expired-deadline :
    (stored now : ℕ) (ttl : Int64)
    → (is_positive ttl ≡ false) ⊎ (stored + ttl < 2 ^ 63)
    → now < 2 ^ 63
    → is_expired now (deadline stored ttl) ≡ (is_positive ttl && ltb (stored + ttl) now)
unfolding is_expired deadline
is_expired-deadline stored now ttl h n = ground arith

-- An entry that expired stays expired, as long as the clock does not wrap.
pub is_expired_mono :
    (now later : ℕ) (expiration : Int64)
    → now ≤ later
    → later < 2 ^ 63
    → is_expired now expiration ≡ true
    → is_expired later expiration ≡ true
unfolding is_expired
is_expired_mono now later expiration l h e = ground arith
