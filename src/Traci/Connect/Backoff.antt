-- ===== src/Traci/Connect/Backoff.antt =====
-- How often and how long src/traci/API.cpp tries to connect.
use native.Mathlib.Nat.{mul_assoc, pow-succ'}
use cosidia.Prelude.{
  ap, sym, ◌∙◌, ℕ, zero, suc, ◌+◌, ◌*◌, ◌^◌, ◌<◌, ◌≤◌, ◌≡◌, refl, arith, true, false, ◌⊎◌, inl, inr,
}
use cosidia.Prelude.Result.{ok, err, socket_exception}
use cosidia.Traci.Connect.{Attempts, try_connect, connect}

-- The sum of `k` pauses, each twice as long as the one before.
unfoldable pub pauses : ℕ → ℕ → ℕ
pauses zero sleep = 0
pauses (suc k) sleep = sleep + pauses k (sleep * 2)

pow_suc : (s k : ℕ) → s * 2 * 2 ^ k ≡ s * 2 ^ suc k
pow_suc s k = mul_assoc s 2 (2 ^ k) ∙ ap (◌*◌ s) (sym (pow-succ' 2 k))

pauses_lem : (k s : ℕ) → pauses k s + s ≡ s * 2 ^ k
unfolding pauses
pauses_lem zero s = omega arith
pauses_lem (suc k) s = omega (arith, pauses_lem k (s * 2), pow_suc s k)

module _ (attempt : Attempts) where
  -- The first `k` attempts from `tries` on fail.
  abbrev pub Fails : ℕ → ℕ → Type 0
  Fails tries zero = Unit {0}
  Fails tries (suc k) = (attempt tries ≡ err socket_exception) × Fails (suc tries) k

  try_connect-ok :
      (k fuel max_tries tries sleep slept : ℕ)
      → k < fuel
      → tries + k < max_tries
      → Fails tries k
      → attempt (tries + k) ≡ ok tt
      → try_connect fuel max_tries tries sleep slept attempt ≡ (ok tt, slept + pauses k sleep)
  unfolding try_connect pauses
  try_connect-ok k zero max_tries tries sleep slept f m h a = ground arith
  try_connect-ok zero (suc fuel) max_tries tries sleep slept f m h a = ground (arith, a)
  try_connect-ok (suc k) (suc fuel) max_tries tries sleep slept f m h a = ground (
    arith,
    h.0,
    try_connect-ok k fuel max_tries (suc tries) (sleep * 2) (slept + sleep) (omega (arith, f))
        (omega (arith, m)) h.1 (ground (arith, a)),
  )

  try_connect-err :
      (k fuel max_tries tries sleep slept : ℕ)
      → k < fuel
      → (tries + suc k ≡ max_tries) ⊎ ((k ≡ 0) × (max_tries ≤ tries))
      → Fails tries (suc k)
      → try_connect fuel max_tries tries sleep slept attempt
        ≡ (err socket_exception, slept + pauses k sleep)
  unfolding try_connect pauses
  try_connect-err k zero max_tries tries sleep slept f m h = ground arith
  try_connect-err zero (suc fuel) max_tries tries sleep slept f m h = ground (arith, h.0)
  try_connect-err (suc k) (suc fuel) max_tries tries sleep slept f (inr m) h = ground arith
  try_connect-err (suc k) (suc fuel) max_tries tries sleep slept f (inl m) h = ground (
    arith,
    h.0,
    m,
    try_connect-err k fuel max_tries (suc tries) (sleep * 2) (slept + sleep) (omega (arith, f))
        (inl (omega (arith, m))) h.1,
  )

  -- The loop ends within its ten rounds. With retries it goes on after each failure of the socket:
  -- where the first `k` of at most nine tries fail and the next one connects, it returns, and has
  -- slept 500 ms times 2^k - 1; where all ten fail it rethrows the failure, after 255.5 seconds. With
  -- no retries the first failure is rethrown at once.
  pub connect_ends :
      ((k : ℕ)
        → k < 10
        → Fails 0 k
        → attempt k ≡ ok tt
        → (slept : ℕ) × (connect true attempt ≡ (ok tt, slept)) × (slept + 500 ≡ 500 * 2 ^ k))
      × (Fails 0 10 → connect true attempt ≡ (err socket_exception, 255_500))
      × (Fails 0 1 → connect false attempt ≡ (err socket_exception, 0))
  unfolding connect pauses
  connect_ends = (
    λ k l f a. (
      0 + pauses k 500,
      try_connect-ok k 10 10 0 500 0 l (omega (arith, l)) f (ground (arith, a)),
      omega (arith, pauses_lem k 500),
    ),
    λ f. try_connect-err 9 10 10 0 500 0 (omega arith) (inl refl) f,
    λ f. try_connect-err 0 10 0 0 500 0 (omega arith) (inr (refl, omega arith)) f,
  )
