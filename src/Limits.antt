-- ===== src/Limits.antt =====
-- limits.py. The bucket's floats are exact numbers here: tokens in millionths, time in
-- microseconds, and a rate of whole tokens a second. `time.monotonic` does not go back.
pub mod Bucket
use Prim.Native.Nat.{min}
use a2a_events_python.Common.{
  ℕ, ◌+◌, ◌-◌, ◌*◌, Bool, true, false, ◌&&◌, Option, none, some, List, [], ◌∷◌, ltb, if◌then◌else◌,
  length, Text, text, text_eq, Dict,
}
use a2a_events_python.Json.{Json}
use a2a_events_python.Errors.{Result, ok, raise, protocol, invalid_selector, rate_limited}
use a2a_events_python.Exec.{Exec}
use a2a_events_python.Models.{Selector, field_filter, keyword_search}

pub record SelectorLimits : Type 0 where
  pub max_keywords : ℕ
  pub max_keyword_length : ℕ
  pub max_fields : ℕ
  pub max_values_per_field : ℕ

abbrev fail : Result (Unit {0})
fail = raise (protocol invalid_selector)

unfoldable pub check_lengths : ℕ → List Text → Result (Unit {0})
check_lengths limit [] = ok tt
check_lengths limit (kw ∷ keywords) =
    let rest = check_lengths limit keywords in if ltb limit (length kw) then fail else rest

unfoldable pub check_keyword : SelectorLimits → List Text → Result (Unit {0})
unfolding check_lengths
check_keyword l keywords =
    if ltb l.max_keywords (length keywords)
    then fail
    else check_lengths l.max_keyword_length keywords

unfoldable pub check_values : ℕ → Dict (List Json) → Result (Unit {0})
check_values limit [] = ok tt
check_values limit ((_, values) ∷ conditions) =
    let rest = check_values limit conditions in if ltb limit (length values) then fail else rest

unfoldable pub check_field_filter : SelectorLimits → Dict (List Json) → Result (Unit {0})
unfolding check_values
check_field_filter l conditions =
    if ltb l.max_fields (length conditions)
    then fail
    else check_values l.max_values_per_field conditions

unfoldable pub check_selector : SelectorLimits → Option Selector → Result (Unit {0})
unfolding check_keyword check_field_filter
check_selector l none = ok tt
check_selector l (some (keyword_search sel)) = check_keyword l sel.keywords
check_selector l (some (field_filter sel)) = check_field_filter l sel.conditions

-- The tokens of one `(key, operation)`, and when they were counted.
pub record TokenBucket : Type 0 where
  pub tokens : ℕ
  pub last : ℕ

pub record RateLimiter : Type 0 where
  pub rate : ℕ
  pub capacity : ℕ
  pub buckets : List ((Text × Text) × TokenBucket)

abbrev same_key : Text × Text → Text × Text → Bool
same_key a b = text_eq a.0 b.0 && text_eq a.1 b.1

unfoldable pub get_bucket : Text × Text → List ((Text × Text) × TokenBucket) → Option TokenBucket
get_bucket key [] = none
get_bucket key ((k, b) ∷ rest) = if same_key k key then some b else get_bucket key rest

unfoldable pub put_bucket :
    Text × Text
    → TokenBucket
    → List ((Text × Text) × TokenBucket)
    → List ((Text × Text) × TokenBucket)
put_bucket key bucket [] = (key, bucket) ∷ []
put_bucket key bucket ((k, b) ∷ rest) =
    if same_key k key then (k, bucket) ∷ rest else (k, b) ∷ put_bucket key bucket rest

-- one token
abbrev pub one_token : ℕ
one_token = 1_000_000

-- min(capacity, tokens + (now - last) * rate)
unfoldable pub refill : ℕ → ℕ → ℕ → TokenBucket → ℕ
refill rate capacity now b = min (capacity * one_token) (b.tokens + (now - b.last) * rate)

-- The test of `check` on one bucket: whether the call may go on, and the bucket after it.
unfoldable pub take_token : ℕ → ℕ → ℕ → TokenBucket → Bool × TokenBucket
unfolding refill
take_token rate capacity now b =
    let tokens = refill rate capacity now b in
    if ltb tokens one_token
    then (false, record { tokens = tokens; last = now })
    else (true, record { tokens = tokens - one_token; last = now })

-- key or "<anonymous>"
abbrev key_of : Option Text → Text
key_of none = text "<anonymous>"
key_of (some []) = text "<anonymous>"
key_of (some (c ∷ cs)) = c ∷ cs

abbrev bucket_or : ℕ → ℕ → Option TokenBucket → TokenBucket
bucket_or capacity now none = record { tokens = capacity * one_token; last = now }
bucket_or capacity now (some b) = b

unfoldable pub check : Option Text → Text → ℕ → Exec RateLimiter (Unit {0})
unfolding take_token
check key operation now l =
    let bucket_key : Text × Text = (key_of key, operation) in
    let b = bucket_or l.capacity now (get_bucket bucket_key l.buckets) in
    let (allowed, b') = take_token l.rate l.capacity now b in
    (
      (if allowed then ok tt else raise (protocol rate_limited)),
      record l { buckets = put_bucket bucket_key b' l.buckets },
    )
