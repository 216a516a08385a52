-- ===== src/Wrappers.antt =====
-- The replacement of a JNI method as a whole, as each entry of src/libzygisk/src/jni_hooks.hpp has it:
-- the context it makes, the calls before and after the original method, and the destructor of the
-- context. The original method is code of the Java VM: which of the hooked functions
-- it calls is `original_calls`. `none` is
-- undefined behaviour.
pub mod Parts
pub mod Zygote
pub mod Denied
pub mod Allowed
pub mod Child
pub mod System
use zygisk_magisk_module.Prelude.{ℕ, ℤ, Option, none, some}
use zygisk_magisk_module.World.{nullptr, dangling, live, Env, World}
use zygisk_magisk_module.JniMethods.{JniArgs, Method}
use zygisk_magisk_module.Hook.{lib_calls, destroy}
use zygisk_magisk_module.Lifecycle.{
  construct, native_specialize_app_process_pre, native_specialize_app_process_post,
  native_fork_system_server_pre, native_fork_system_server_post, native_fork_and_specialize_pre,
  native_fork_and_specialize_post,
}

-- The original method, whose address is read through `g_hook` (`get_defs()`).
unfoldable pub original_method : Env → World → Option World
original_method env w = elim w.g_hook [
  | nullptr ↦ none
  | dangling ↦ none
  | live h ↦ some (lib_calls env (env.original_calls w.trace) w)
]

-- `return ctx.pid`, and the destructor.
unfoldable pub leave : Env → World → Option (ℤ × World)
leave env w = elim (destroy env w) [ none ↦ none | some x ↦ some (w.ctx.pid, x) ]

-- The replacement of a method of `fork_app_methods`, with the result it gives to the Java VM.
unfoldable pub fork_app : Env → ℕ → Method → JniArgs → World → Option (ℤ × World)
fork_app env fd_max m j w =
    elim (native_fork_and_specialize_pre env (construct fd_max (m.noted j) w)) [
      | none ↦ none
      | some u ↦ elim (original_method env u) [
        | none ↦ none
        | some o ↦ leave env (native_fork_and_specialize_post env o)
      ]
    ]

-- That of a method of `specialize_app_methods`.
unfoldable pub specialize_app : Env → ℕ → Method → JniArgs → World → Option World
specialize_app env fd_max m j w =
    let u = native_specialize_app_process_pre env (construct fd_max (m.noted j) w) in
    elim (original_method env u) [
      | none ↦ none
      | some o ↦ destroy env (native_specialize_app_process_post env o)
    ]

-- That of a method of `fork_server_methods`.
unfoldable pub fork_server : Env → ℕ → Method → JniArgs → World → Option (ℤ × World)
fork_server env fd_max m j w =
    elim (native_fork_system_server_pre env (construct fd_max (m.noted j) w)) [
      | none ↦ none
      | some u ↦ elim (original_method env u) [
        | none ↦ none
        | some o ↦ leave env (native_fork_system_server_post env o)
      ]
    ]
