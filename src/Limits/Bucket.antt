-- ===== src/Limits/Bucket.antt =====
-- How many calls a bucket lets through.
use a2a_events_python.Common.{
  ℕ, ◌+◌, ◌-◌, ◌*◌, ◌≤◌, ◌≡◌, arith, List, [], ◌∷◌, if◌then◌else◌, Bool-cases, inl, inr,
}
use a2a_events_python.Limits.{TokenBucket, one_token, refill, take_token}

-- The calls of one bucket at the given times, oldest first: how many are let through, and the
-- bucket in the end.
unfoldable pub take_all : ℕ → ℕ → List ℕ → TokenBucket → ℕ × TokenBucket
take_all rate capacity [] b = (0, b)
take_all rate capacity (t ∷ ts) b =
    let (allowed, b') = take_token rate capacity t b in
    let (n, b'') = take_all rate capacity ts b' in ((if allowed then n + 1 else n), b'')

-- times that do not go back, from `lo` to at most `hi`
abbrev pub Rising : ℕ → ℕ → List ℕ → Type 0
Rising lo hi [] = lo ≤ hi
Rising lo hi (t ∷ ts) = (lo ≤ t) × Rising t hi ts

-- one call: the tokens spent and kept are at most the tokens before it and those earned since
take_step :
    (rate capacity t : ℕ) (b : TokenBucket)
    → ((if (take_token rate capacity t b).0 then 1 else 0) * one_token
          + (take_token rate capacity t b).1.tokens
        ≤ b.tokens + (t - b.last) * rate)
      × ((take_token rate capacity t b).1.last ≡ t)
unfolding take_token refill
take_step rate capacity t b = ground arith

Rising-le : (lo hi : ℕ) (ts : List ℕ) → Rising lo hi ts → lo ≤ hi
Rising-le lo hi [] h = h
Rising-le lo hi (t ∷ ts) (h, k) = omega (arith, Rising-le t hi ts k)

earned : (rate lo t hi : ℕ) → lo ≤ t → t ≤ hi → (t - lo) * rate + (hi - t) * rate ≡ (hi - lo) * rate
earned rate lo t hi h k = grind arith

-- However the calls of a bucket fall between its last count and a later time, the tokens of the
-- calls that are let through, and those left, are at most the tokens that the bucket had and those
-- that the rate earned in that time.
pub take_all-bound :
    (rate capacity hi : ℕ) (ts : List ℕ) (b : TokenBucket)
    → Rising b.last hi ts
    → (take_all rate capacity ts b).0 * one_token + (take_all rate capacity ts b).1.tokens
      ≤ b.tokens + (hi - b.last) * rate
unfolding take_all
take_all-bound rate capacity hi [] b h = omega arith
take_all-bound rate capacity hi (t ∷ ts) b (h, k) =
    let b' = (take_token rate capacity t b).1 in
    let (spent, at) = take_step rate capacity t b in
    let ih = take_all-bound rate capacity hi ts b' (rw at k) in
    let ih' = rw at at ih in
    let total = earned rate b.last t hi h (Rising-le t hi ts k) in
    elim (Bool-cases (take_token rate capacity t b).0) [
      | inl allowed ↦
          let spent' = rw allowed at spent in rw allowed (omega (arith, ih', spent', total))
      | inr refused ↦
          let spent' = rw refused at spent in rw refused (omega (arith, ih', spent', total))
    ]

-- The bucket never holds more than its capacity.
pub take_token-capacity :
    (rate capacity t : ℕ) (b : TokenBucket)
    → (take_token rate capacity t b).1.tokens ≤ capacity * one_token
unfolding take_token refill
take_token-capacity rate capacity t b = ground arith
