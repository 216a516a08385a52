-- ===== src/Lifecycle.antt =====
-- The life of a context: its constructor of src/libzygisk/src/hook.cpp, and the specialisation
-- functions of src/libzygisk/src/module.cpp, from `app_specialize_pre` to
-- `nativeForkAndSpecialize_post`. The process name, a Java string, is left out. `none` is undefined
-- behaviour, as in `Fds`.
pub mod Parent
pub mod Denylist
pub mod Allowed
pub mod Server
use zygisk_magisk_module.Prelude.{
  ℕ, ℤ, minus_one, nonneg, Bool, true, false, not, Option, none, some, List, [], ◌∷◌, replicate,
  if◌then◌else◌,
}
use zygisk_magisk_module.Flags.{
  StateFlag, add_flag, app_specialize, app_fork_and_specialize, server_fork_and_specialize,
  skip_close_log_pipe, do_revert_unmount, has_any, is_unmount, process_is_magisk_app,
}
use zygisk_magisk_module.World.{Args, setenv_enabled, Env, Context, World}
use zygisk_magisk_module.Ipc.Bytes.{emit}
use zygisk_magisk_module.Plt.{is_empty}
use zygisk_magisk_module.Fds.{is_child, fork_pre, fork_post, sanitize_fds}
use zygisk_magisk_module.Companion.{close_owned}
use zygisk_magisk_module.Scan.{get_module_info}
use zygisk_magisk_module.Modules.{run_modules_pre, run_modules_post}

-- The constructor; `get_fd_max` gives the limit of RLIMIT_NOFILE.
unfoldable pub new_context : ℕ → Args → Context
new_context fd_max args = record {
  args = args;
  modules = [];
  pid = minus_one;
  flags = 0;
  info_flags = 0;
  allowed_fds = replicate fd_max false;
  exempted_fds = [];
  register_info = [];
  ignore_info = [];
}

unfoldable pub construct : ℕ → Args → World → World
unfolding new_context
construct fd_max args w = record w { g_ctx = true; ctx = new_context fd_max args }

-- `flags |= FLAG`
abbrev pub set_flag : StateFlag → World → World
set_flag f w = record w { ctx = record w.ctx { flags = add_flag w.ctx.flags f } }

-- `app_specialize_pre`; the connection that it was given is closed at its end.
unfoldable pub app_specialize_pre : Env → World → World
app_specialize_pre env w =
    let (fd, fds, v) = get_module_info env (set_flag app_specialize w) in
    close_owned fd (
      if is_unmount v.ctx.info_flags
      then set_flag do_revert_unmount v
      else if nonneg fd
      then run_modules_pre env fds v
      else v)

unfoldable pub app_specialize_post : Env → World → World
app_specialize_post env w =
    let v = run_modules_post env w in
    if has_any v.ctx.info_flags process_is_magisk_app then emit setenv_enabled v else v

unfoldable pub server_specialize_pre : Env → World → World
server_specialize_pre env w =
    let (fd, fds, v) = get_module_info env w in
    close_owned fd
      (if nonneg fd then (if is_empty fds then v else run_modules_pre env fds v) else v)

unfoldable pub server_specialize_post : Env → World → World
server_specialize_post env w = run_modules_post env w

unfoldable pub native_specialize_app_process_pre : Env → World → World
native_specialize_app_process_pre env w = app_specialize_pre env (set_flag skip_close_log_pipe w)

unfoldable pub native_specialize_app_process_post : Env → World → World
native_specialize_app_process_post env w = app_specialize_post env w

-- What a child does between the fork and the clean-up of descriptors, and then that clean-up.
abbrev pub after_fork : Env → (World → World) → Option World → Option World
after_fork env specialize none = none
after_fork env specialize (some v) = sanitize_fds env (if is_child v.ctx then specialize v else v)

unfoldable pub native_fork_system_server_pre : Env → World → Option World
native_fork_system_server_pre env w =
    after_fork env (server_specialize_pre env)
      (fork_pre env (set_flag server_fork_and_specialize w))

unfoldable pub native_fork_system_server_post : Env → World → World
native_fork_system_server_post env w =
    fork_post (if is_child w.ctx then server_specialize_post env w else w)

unfoldable pub native_fork_and_specialize_pre : Env → World → Option World
native_fork_and_specialize_pre env w =
    after_fork env (app_specialize_pre env) (fork_pre env (set_flag app_fork_and_specialize w))

unfoldable pub native_fork_and_specialize_post : Env → World → World
native_fork_and_specialize_post env w =
    fork_post (if is_child w.ctx then app_specialize_post env w else w)
