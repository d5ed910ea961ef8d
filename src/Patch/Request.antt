-- ===== src/Patch/Request.antt =====
-- What `patchCodeRun` of sys-agent/source/patch_code.c is asked and tells.
use sys_agent.Prelude.{ℕ, Bool, false, Option, [], Bytes}

-- `PATCH_CODE_MAX_SIZE`
abbrev pub max_size : ℕ
max_size = 0x400

-- `PATCH_CODE_MAX_THREADS`
abbrev pub max_threads : ℕ
max_threads = 0x80

-- The arguments of `patchCodeRun`, with the sizes of the buffers; `none` stands for `NULL`.
pub record Request : Type 0 where
  pub address : ℕ
  pub expected : Option Bytes
  pub skip_verify : Bool
  pub patch : Option Bytes
  pub check_pc : Bool
  pub pid : ℕ

-- `PatchCodeStatus`
pub data Status : Type 0 where
  patched busy_pc_in_range expected_mismatch readback_failed : Status

-- `PatchCodeResult`
pub record PatchResult : Type 0 where
  pub status : Status
  pub dmnt_closed : Bool
  pub paused_threads : ℕ
  pub nearest_pc : ℕ
  pub pc_hit_thread : ℕ
  pub pc_hit_value : ℕ
  pub patch_size : ℕ
  pub old_bytes : Bytes
  pub new_bytes : Bytes

-- What `memset` leaves.
abbrev pub no_result : PatchResult
no_result = record {
  status = patched;
  dmnt_closed = false;
  paused_threads = 0;
  nearest_pc = 0;
  pc_hit_thread = 0;
  pc_hit_value = 0;
  patch_size = 0;
  old_bytes = [];
  new_bytes = [];
}
