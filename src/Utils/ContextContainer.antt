-- ===== src/Utils/ContextContainer.antt =====
-- src/utils/ContextContainer.hpp: a context that only the core thread reads and replaces.
use cosidia.Prelude.{Bool, Option}
use cosidia.Prelude.Result.{Result, ok, ◌>>◌, enforce}

pub record ContextContainer {ℓ} (A : Type ℓ) : Type ℓ where
  pub element : Option A

module _ {ℓ} {A : Type ℓ} where
  unfoldable pub get_element : Bool → ContextContainer A → Result (Option A)
  get_element on_core_thread c = do
    enforce on_core_thread "Tried to fetch context from wrong thread"
    ok c.element

  unfoldable pub swap : Bool → Option A → ContextContainer A → Result (ContextContainer A)
  swap on_core_thread new_element c = do
    enforce on_core_thread "Tried to swap context from wrong thread"
    ok (record { element = new_element })
