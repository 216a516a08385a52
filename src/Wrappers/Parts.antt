-- ===== src/Wrappers/Parts.antt =====
-- The replacement of a JNI method of src/libzygisk/src/jni_hooks.hpp from its parts.
use zygisk_magisk_module.Prelude.{ℕ, ℤ, ◌≡◌, refl, ap, ◌∙◌, some}
use zygisk_magisk_module.World.{HookContext, live, Env, World}
use zygisk_magisk_module.Hook.{lib_calls, destroy}
use zygisk_magisk_module.Lifecycle.{
  construct, native_specialize_app_process_pre, native_specialize_app_process_post,
  native_fork_system_server_pre, native_fork_system_server_post, native_fork_and_specialize_pre,
  native_fork_and_specialize_post,
}
use zygisk_magisk_module.JniMethods.{JniArgs, Method}
use zygisk_magisk_module.Wrappers.{original_method, leave, fork_app, fork_server, specialize_app}

-- The state after the original method.
abbrev pub called : Env → World → World
called env w = lib_calls env (env.original_calls w.trace) w

pub original_method-live :
    (env : Env) (w : World) (h : HookContext)
    → w.g_hook ≡ live h
    → original_method env w ≡ some (called env w)
unfolding original_method
original_method-live env w h up = rw up refl

pub leave-pid :
    (env : Env) (q x : World) (pid : ℤ)
    → destroy env q ≡ some x
    → q.ctx.pid ≡ pid
    → leave env q ≡ some (pid, x)
unfolding leave
leave-pid env q x pid left same = rw (leave, left) (ap (λ p. some (p, x)) same)

pub fork_app-parts :
    (env : Env) (fd_max : ℕ) (m : Method) (j : JniArgs) (w u q x : World) (h : HookContext)
    (pid : ℤ)
    → native_fork_and_specialize_pre env (construct fd_max (m.noted j) w) ≡ some u
    → u.g_hook ≡ live h
    → native_fork_and_specialize_post env (called env u) ≡ q
    → leave env q ≡ some (pid, x)
    → fork_app env fd_max m j w ≡ some (pid, x)
unfolding fork_app
fork_app-parts env fd_max m j w u q x h pid pre up post left =
    rw (fork_app, pre, original_method-live env u h up) (ap (leave env) post ∙ left)

pub fork_server-parts :
    (env : Env) (fd_max : ℕ) (m : Method) (j : JniArgs) (w u q x : World) (h : HookContext)
    (pid : ℤ)
    → native_fork_system_server_pre env (construct fd_max (m.noted j) w) ≡ some u
    → u.g_hook ≡ live h
    → native_fork_system_server_post env (called env u) ≡ q
    → leave env q ≡ some (pid, x)
    → fork_server env fd_max m j w ≡ some (pid, x)
unfolding fork_server
fork_server-parts env fd_max m j w u q x h pid pre up post left =
    rw (fork_server, pre, original_method-live env u h up) (ap (leave env) post ∙ left)

pub specialize_app-parts :
    (env : Env) (fd_max : ℕ) (m : Method) (j : JniArgs) (w u x : World) (h : HookContext)
    → native_specialize_app_process_pre env (construct fd_max (m.noted j) w) ≡ u
    → u.g_hook ≡ live h
    → destroy env (native_specialize_app_process_post env (called env u)) ≡ some x
    → specialize_app env fd_max m j w ≡ some x
unfolding specialize_app
specialize_app-parts env fd_max m j w u x h pre up left =
    rw (specialize_app, pre, original_method-live env u h up) left
