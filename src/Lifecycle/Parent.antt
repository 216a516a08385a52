-- ===== src/Lifecycle/Parent.antt =====
-- The fork paths in zygote itself: the process that forks goes on as before.
use zygisk_magisk_module.Prelude.{◌≡◌, refl, ap, if◌then◌else◌, ◌∙◌, false, some}
use zygisk_magisk_module.Flags.{app_fork_and_specialize, server_fork_and_specialize}
use zygisk_magisk_module.World.{sigprocmask_unblock, Env, World}
use zygisk_magisk_module.Ipc.Bytes.{emit}
use zygisk_magisk_module.Fds.{HasFork, is_child, forked, fork_post, sanitize_fds}
use zygisk_magisk_module.Fds.Fork.{fork_pre-parent}
use zygisk_magisk_module.Lifecycle.{
  set_flag, after_fork, app_specialize_pre, app_specialize_post, server_specialize_pre,
  server_specialize_post, native_fork_system_server_pre, native_fork_system_server_post,
  native_fork_and_specialize_pre, native_fork_and_specialize_post,
}

sanitize_fds_parent : (env : Env) (w : World) → is_child w.ctx ≡ false → sanitize_fds env w ≡ some w
unfolding sanitize_fds
sanitize_fds_parent env w parent = rw parent refl

after_fork_parent :
    (env : Env) (specialize : World → World) (w : World)
    → is_child w.ctx ≡ false
    → after_fork env specialize (some w) ≡ some w
after_fork_parent env specialize w parent =
    let skipped : (if is_child w.ctx then specialize w else w) ≡ w = rw parent refl in
    ap (sanitize_fds env) skipped ∙ sanitize_fds_parent env w parent

post_parent :
    (specialize : World → World) (w : World)
    → is_child w.ctx ≡ false
    → fork_post (if is_child w.ctx then specialize w else w) ≡ emit sigprocmask_unblock w
unfolding fork_post
post_parent specialize w parent = rw parent refl

-- In zygote, where `old_fork` is set and the fork has given a positive process number, both functions before the original
-- method are defined and only block SIGCHLD and fork; and those after it only unblock SIGCHLD.
pub fork_paths_parent :
    (env : Env) (w u : World)
    → HasFork env w
    → is_child (forked env w).ctx ≡ false
    → is_child u.ctx ≡ false
    → (native_fork_and_specialize_pre env w
        ≡ some (forked env (set_flag app_fork_and_specialize w)))
      × (native_fork_system_server_pre env w
          ≡ some (forked env (set_flag server_fork_and_specialize w)))
      × (native_fork_and_specialize_post env u ≡ emit sigprocmask_unblock u)
      × (native_fork_system_server_post env u ≡ emit sigprocmask_unblock u)
unfolding native_fork_and_specialize_pre native_fork_and_specialize_post
    native_fork_system_server_pre native_fork_system_server_post
fork_paths_parent env w u has parent parent' =
    let app = set_flag app_fork_and_specialize w in
    let server = set_flag server_fork_and_specialize w in
    (
      ap (after_fork env (app_specialize_pre env)) (fork_pre-parent env app has parent)
          ∙ after_fork_parent env (app_specialize_pre env) (forked env app) parent,
      ap (after_fork env (server_specialize_pre env)) (fork_pre-parent env server has parent)
          ∙ after_fork_parent env (server_specialize_pre env) (forked env server) parent,
      post_parent (app_specialize_post env) u parent',
      post_parent (server_specialize_post env) u parent',
    )
