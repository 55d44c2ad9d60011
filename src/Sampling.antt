-- ===== src/Sampling.antt =====
-- packages/obs-platform/src/obs_platform/evals/sampling.py: the decision is a function of the trace
-- id. The digest of `hashlib.blake2b`, read as a number, is the argument `digest salt trace_id`.
use agent_lens_platform.Common.{ℕ, ◌%◌, ◌≤◌, ◌≡◌, Bool, true, false, ltb, leb, if◌then◌else◌, arith}

abbrev pub buckets : ℕ
buckets = 100

module _ (digest : ℕ → ℕ → ℕ) where
  unfoldable pub bucket_of : ℕ → ℕ → ℕ
  bucket_of trace_id salt = digest salt trace_id % buckets

  -- A rate below zero is refused with zero: rates are natural numbers here.
  unfoldable pub should_sample : ℕ → ℕ → ℕ → Bool
  unfolding bucket_of
  should_sample trace_id rate_percent salt =
      if leb rate_percent 0
      then false
      else if leb buckets rate_percent
      then true
      else ltb (bucket_of trace_id salt) rate_percent

  -- A trace is sampled exactly when its bucket lies below the rate, at the rates 0 and 100 and
  -- above too.
  pub should_sample-eq-ltb :
      (trace_id rate salt : ℕ)
      → should_sample trace_id rate salt ≡ ltb (bucket_of trace_id salt) rate
  unfolding should_sample
  should_sample-eq-ltb trace_id rate salt = ground arith

  -- A trace that is sampled at a rate is sampled at every higher one, with the same salt.
  pub should_sample_monotone :
      (trace_id rate rate' salt : ℕ)
      → rate ≤ rate'
      → should_sample trace_id rate salt ≡ true
      → should_sample trace_id rate' salt ≡ true
  unfolding should_sample
  should_sample_monotone trace_id rate rate' salt le h = ground arith
