-- ===== src/Runtime/Race.antt =====
-- `src/runtime.rs`: two installations of a default provider at once. `install_provider_named` sets the
-- default provider in four atomic steps, and no lock is held around them.
use wp_knowledge.Base.{ℕ, ◌<◌, ◌≡◌, refl, List, [], ◌∷◌, some, arith}
use wp_knowledge.Runtime.Types.{KnowledgeResult, ProviderHandle}
use wp_knowledge.Runtime.State.{
  KnowledgeRuntime, fetch_add_1, publish, current_generation, current_handle,
}
use wp_knowledge.Runtime.Registry.{IsConsistent, even-fetch_add_1}

pub data PublishStep (W : Type 0) : Type 0 where
  raise : PublishStep W
  set : ProviderHandle W → PublishStep W
  store : ℕ → PublishStep W

unfoldable pub publish_steps : {W : Type 0} → ProviderHandle W → List (PublishStep W)
publish_steps handle =
    PublishStep.raise
    ∷ PublishStep.set handle
    ∷ PublishStep.store handle.generation
    ∷ PublishStep.raise
    ∷ []

-- The steps of two threads, in an order that keeps each thread's own.
pub data Interleaved {A : Type 0} : List A → List A → List A → Type 0 where
  done : Interleaved [] [] []
  left : {x : A} {xs ys zs : List A} → Interleaved xs ys zs → Interleaved (x ∷ xs) ys (x ∷ zs)
  right : {y : A} {xs ys zs : List A} → Interleaved xs ys zs → Interleaved xs (y ∷ ys) (y ∷ zs)

module _ {W : Type 0} where
  abbrev race_order : ProviderHandle W → ProviderHandle W → List (PublishStep W)
  race_order a b =
      PublishStep.raise
      ∷ PublishStep.raise
      ∷ PublishStep.set a
      ∷ PublishStep.set b
      ∷ PublishStep.store b.generation
      ∷ PublishStep.store a.generation
      ∷ PublishStep.raise
      ∷ PublishStep.raise
      ∷ []

  race_interleaved :
      (a b : ProviderHandle W) → Interleaved (publish_steps a) (publish_steps b) (race_order a b)
  unfolding publish_steps
  race_interleaved a b = left (right (left (right (right (left (left (right done)))))))

module _ {W C D : Type 0} where
  unfoldable pub perform_step : PublishStep W → KnowledgeRuntime W C D → KnowledgeRuntime W C D
  unfolding fetch_add_1
  perform_step PublishStep.raise rt = record rt { provider_epoch = fetch_add_1 rt.provider_epoch }
  perform_step (PublishStep.set handle) rt = record rt { provider = some handle }
  perform_step (PublishStep.store generation) rt = record rt {
    current_generation_value = generation;
  }

  unfoldable pub perform : List (PublishStep W) → KnowledgeRuntime W C D → KnowledgeRuntime W C D
  unfolding perform_step
  perform [] rt = rt
  perform (x ∷ xs) rt = perform xs (perform_step x rt)

  -- One installation by itself is the four steps in order.
  publish-perform :
      (handle : ProviderHandle W) (rt : KnowledgeRuntime W C D)
      → publish handle rt ≡ perform (publish_steps handle) rt
  unfolding publish perform publish_steps
  publish-perform handle rt = refl

  -- Two installations that set the default provider at once can end, with the epoch even again, with
  -- the second provider set and the generation of the first announced.
  pub current_generation_race :
      (rt : KnowledgeRuntime W C D) (a b : ProviderHandle W)
      → IsConsistent rt
      → 0 < a.generation
      → (zs : List (PublishStep W)) × Interleaved (publish_steps a) (publish_steps b) zs
        × (current_handle (perform zs rt) ≡ KnowledgeResult.ok b)
        × (current_generation (perform zs rt) (perform zs rt) (perform zs rt) (perform zs rt)
            ≡ some a.generation)
  unfolding perform current_handle current_generation
  current_generation_race rt a b c pos =
      let even =
        even-fetch_add_1 (fetch_add_1 (fetch_add_1 rt.provider_epoch))
          (even-fetch_add_1 rt.provider_epoch c.quiet) in
      (race_order a b, race_interleaved a b, refl, ground arith)
