-- ===== src/Pipeline/Goroutine/Statuses.antt =====
-- Which statuses a build can have at each statement of its goroutine.
use chef_infra.Base.{String, ◌≡◌, ◌⊎◌, inl, inr, refl, Option, none, some, arith}
use chef_infra.Pipeline.Config.{PipelineConfig}
use chef_infra.Pipeline.Types.{BuildStatus, building, success, failed, cancelled}
use chef_infra.Pipeline.Interfaces.{Deps}
use chef_infra.Pipeline.Goroutine.{
  Pc, entering, finished, completing, deploying, rolling_back, cleaning_builder, cleaning_context,
  reporting, Task, step_at, step,
}

-- After the success was recorded: a call of `CancelBuild` that found the build building before may
-- write after it.
abbrev pub Done : BuildStatus → Type 0
Done s = (s ≡ success) ⊎ (s ≡ cancelled)

-- After an error the status may be anything but a start or an end.
abbrev pub Left : BuildStatus → Type 0
Left s = (s ≡ building) ⊎ (s ≡ cancelled) ⊎ (s ≡ success)

abbrev pub AfterCalls : Option String → BuildStatus → Type 0
AfterCalls none s = Done s
AfterCalls (some e) s = Left s

abbrev pub IsFinal : BuildStatus → Type 0
IsFinal s = (s ≡ success) ⊎ (s ≡ failed) ⊎ (s ≡ cancelled)

-- The statuses that a build can have while its goroutine is at a statement.
abbrev pub Agrees : {W : Type 0} → Pc W → BuildStatus → Type 0
Agrees entering s = Unit
Agrees (completing _ _) s = Done s
Agrees (deploying _ _) s = Done s
Agrees (rolling_back _ _ _) s = Done s
Agrees (cleaning_builder _ _ e) s = AfterCalls e s
Agrees (cleaning_context _ e) s = AfterCalls e s
Agrees (reporting e) s = AfterCalls e s
Agrees finished s = IsFinal s
Agrees _ s = (s ≡ building) ⊎ (s ≡ cancelled)

abbrev pub InStep : {W : Type 0} → Task W → Type 0
InStep t = Agrees t.pc t.build.status

-- A build may become cancelled at any time.
pub Agrees-cancelled : {W : Type 0} (pc : Pc W) → Agrees pc cancelled
Agrees-cancelled entering = tt
Agrees-cancelled (cleaning_builder bc b none) = inr refl
Agrees-cancelled (cleaning_builder bc b (some x)) = inr (inl refl)
Agrees-cancelled (cleaning_context bc none) = inr refl
Agrees-cancelled (cleaning_context bc (some x)) = inr (inl refl)
Agrees-cancelled (reporting none) = inr refl
Agrees-cancelled (reporting (some x)) = inr (inl refl)
Agrees-cancelled finished = inr (inr refl)
Agrees-cancelled _ = inr refl

module _ {W : Type 0} (deps : Deps W) (config : PipelineConfig) where
  step_at-InStep :
      (pc : Pc W) (t : Task W) (w : W)
      → t.pc ≡ pc
      → Agrees pc t.build.status
      → InStep (step_at deps config pc t w).0
  unfolding step_at
  step_at-InStep entering t w at_pc h = inl refl
  step_at-InStep (reporting none) t w at_pc (inl h) = inl h
  step_at-InStep (reporting none) t w at_pc (inr h) = inr (inr h)
  step_at-InStep (reporting (some e)) t w at_pc h = inr (inl refl)
  step_at-InStep (cleaning_builder bc b none) t w at_pc h = h
  step_at-InStep (cleaning_builder bc b (some e)) t w at_pc h = h
  step_at-InStep (cleaning_context bc none) t w at_pc h = h
  step_at-InStep (cleaning_context bc (some e)) t w at_pc h = h
  step_at-InStep finished t w at_pc h = rw at_pc h
  step_at-InStep _ t w at_pc h = ground arith

  pub step-InStep : (t : Task W) (w : W) → InStep t → InStep (step deps config t w).0
  unfolding step
  step-InStep t w h = step_at-InStep t.pc t w refl h

  step_at-id :
      (pc : Pc W) (t : Task W) (w : W) → (step_at deps config pc t w).0.build.id ≡ t.build.id
  unfolding step_at
  step_at-id (reporting none) t w = refl
  step_at-id (reporting (some e)) t w = refl
  step_at-id _ t w = ground arith

  -- A statement keeps the id of the build.
  pub step-id : (t : Task W) (w : W) → (step deps config t w).0.build.id ≡ t.build.id
  unfolding step
  step-id t w = step_at-id t.pc t w
