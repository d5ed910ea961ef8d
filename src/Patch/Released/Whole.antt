-- ===== src/Patch/Released/Whole.antt =====
-- All of `patchCodeRun` in sys-agent/source/patch_code.c, from the call to the closed handle.
use sys_agent.Prelude.{ℕ, ◌<◌, ◌≡◌, inl, inr, some, Option-cases}
use sys_agent.Patch.Kernel.{Kernel, Log}
use sys_agent.Patch.Request.{Request, PatchResult}
use sys_agent.Patch.Run.{patch_code_run}
use sys_agent.Patch.Released.{Settles, IsReleased}
use sys_agent.Patch.Released.Returns.{patch_code_run-returns}
use sys_agent.Patch.Released.Closed.{returned-IsReleased}

module _ (k : Kernel) where
  -- Where fewer than `n` events come at a time, and from the `m`th wait on the waits time out and a second has passed,
  -- `patchCodeRun` returns with more fuel than `m`: then the handle is closed last if the process was attached to, right
  -- after a resume if its threads were listed.
  pub patch_code_run-IsReleased :
      (m n : ℕ) (q : Request)
      → Settles k m n
      → m < n
      → (r : ℕ × PatchResult × Log) × (patch_code_run k n q ≡ some r) × IsReleased k r.2
  patch_code_run-IsReleased m n q settles enough = elim (Option-cases (patch_code_run k n q)) [
    | inl e ↦ absurd (patch_code_run-returns k m n settles q enough e)
    | inr (r, e) ↦ (r, e, returned-IsReleased k q n r e)
  ]
