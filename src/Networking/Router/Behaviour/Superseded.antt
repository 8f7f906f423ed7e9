-- ===== src/Networking/Router/Behaviour/Superseded.antt =====
-- What src/networking/Router.cpp does with actions that its tracker does not wait for.
use cosidia.Prelude.{ℤ, ℕ, Bool}
use cosidia.Prelude.Result.{Error}
use text.Mathlib.Text.{◌==◌ as str_eq}
use cosidia.Core.Action.{Ref}
use cosidia.Kernel.{System}
use cosidia.Kernel.Execution.{Behaviour}
use cosidia.Application.Cam.{Validate, Numbers}
use cosidia.Networking.Router.{Vanetza, Router}
use cosidia.Networking.Router.Behaviour.{router}
use cosidia.Networking.Router.Behaviour

module _ {V Real Address Profile Category Packet : Type 0}
    (van : Vanetza V Real Address Profile Category Packet) (numbers : Numbers Real)
    (validate : Validate) (random : ℕ → ℤ)
    (expired : System (Router V Real Address Profile Category Packet) → Bool) (fuel : ℕ)
    (abandoned : Ref
      → Error
      → System (Router V Real Address Profile Category Packet)
      → System (Router V Real Address Profile Category Packet)) where
  abbrev RouterSystem : Type 0
  RouterSystem = System (Router V Real Address Profile Category Packet)

  abbrev pub behaviour : Behaviour (Router V Real Address Profile Category Packet)
  behaviour = router van numbers validate random expired fuel abandoned
