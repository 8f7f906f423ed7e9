-- ===== src/Traci/Connect.antt =====
-- API::connect of src/traci/API.cpp. `attempt` gives the outcome of each call of TraCIAPI::connect,
-- from the first on. The result goes with the milliseconds that were slept.
pub mod Backoff
use cosidia.Prelude.{ltb, ℕ, zero, suc, ◌+◌, ◌*◌, Bool, true, false, if◌then◌else◌}
use cosidia.Prelude.Result.{Result, ok, err, Error, socket_exception, no_fuel}

abbrev pub Attempts : Type 0
Attempts = ℕ → Result (Unit {0})

-- The handler catches the exceptions of the socket, and lets every other one through.
abbrev pub is_caught : Error → Bool
is_caught socket_exception = true
is_caught e = false

-- The loop on fuel, after `tries` failures, with the time to sleep next and the time slept.
unfoldable pub try_connect :
    (fuel max_tries tries sleep slept : ℕ) → Attempts → Result (Unit {0}) × ℕ
try_connect zero max_tries tries sleep slept attempt = (err no_fuel, slept)
try_connect (suc fuel) max_tries tries sleep slept attempt = elim (attempt tries) [
  | ok u ↦ (ok u, slept)
  | err e ↦ elim (is_caught e) [
    | false ↦ (err e, slept)
    | true ↦ elim (ltb (suc tries) max_tries) [
      | false ↦ (err e, slept)
      | true ↦ try_connect fuel max_tries (suc tries) (sleep * 2) (slept + sleep) attempt
    ]
  ]
]

-- There are at most ten tries.
unfoldable pub connect : (retry : Bool) → Attempts → Result (Unit {0}) × ℕ
unfolding try_connect
connect retry attempt = try_connect 10 (if retry then 10 else 0) 0 500 0 attempt
