-- ===== src/Wrappers/Zygote.antt =====
-- A fork as zygote sees it, through the whole replacement of the JNI method.
use zygisk_magisk_module.Prelude.{
  ℕ, nonneg, ◌≡◌, refl, ap, ◌∙◌, ◌↔◌, true, false, some, List, [], ◌∷◌, arith, Occurs,
}
use zygisk_magisk_module.Flags.{
  StateFlag, has, add_flag, app_fork_and_specialize, server_fork_and_specialize, do_revert_unmount,
}
use zygisk_magisk_module.Flags.Laws.{has-add_flag}
use zygisk_magisk_module.World.{
  HookContext, live, LibCall, forks, closes_log, sets_context, copies, closes, unshares, fork,
  sigprocmask_block, sigprocmask_unblock, original, fork_fn, Text, umount, Args, Env, World,
}
use zygisk_magisk_module.Ipc.Bytes.{emit}
use zygisk_magisk_module.Fds.{HasFork, is_child, forked}
use zygisk_magisk_module.Hook.{
  lib_call, lib_calls, destroy, new_fork, new_unshare, revert_unmount, new_setcontext,
  new_log_close,
}
use zygisk_magisk_module.Hook.Forks.{lib_calls-fork, lib_calls-umount}
use zygisk_magisk_module.Modules.Frame.{entries, Same}
use zygisk_magisk_module.Lifecycle.{construct, set_flag}
use zygisk_magisk_module.Lifecycle.Parent.{fork_paths_parent}
use zygisk_magisk_module.JniMethods.{JniArgs, Method}
use zygisk_magisk_module.Wrappers.{fork_app, fork_server, leave}
use zygisk_magisk_module.Wrappers.Parts.{called, fork_app-parts, fork_server-parts}

pub lib_call-Same :
    (env : Env) (c : LibCall) (w : World)
    → Same w (lib_call env c w) × ((lib_call env c w).g_sock ≡ w.g_sock)
unfolding lib_call new_fork new_unshare revert_unmount new_setcontext new_log_close entries
lib_call-Same env forks w = ground arith
lib_call-Same env closes_log w = ground arith
lib_call-Same env sets_context w = ground arith
lib_call-Same env copies w = ground arith
lib_call-Same env closes w = ground arith
lib_call-Same env (unshares newns) w = ground arith

pub lib_calls-Same :
    (env : Env) (cs : List LibCall) (w : World)
    → Same w (lib_calls env cs w) × ((lib_calls env cs w).g_sock ≡ w.g_sock)
unfolding lib_calls
lib_calls-Same env [] w = ((refl, refl, refl, refl), refl)
lib_calls-Same env (c ∷ cs) w =
    let (s, k) = lib_call-Same env c w in
    let (s', k') = lib_calls-Same env cs (lib_call env c w) in
    ((s'.0 ∙ s.0, s'.1 ∙ s.1, s'.2 ∙ s.2, s'.3 ∙ s.3), k' ∙ k)

-- The state in which the original method starts, in zygote.
abbrev at_fork : Env → ℕ → StateFlag → Args → World → World
at_fork env fd_max f args w = forked env (set_flag f (construct fd_max args w))

-- What a fork leaves in zygote: no module's function was called, and there is none to call; the
-- context is gone, and the other globals are as before; nothing forked a second time; and nothing
-- was unmounted.
pub record LeavesZygote (w v : World) : Type 0 where
  pub same_entries : entries v.trace ≡ entries w.trace
  pub no_modules : v.ctx.modules ≡ []
  pub no_ctx : v.g_ctx ≡ false
  pub same_hook : v.g_hook ≡ w.g_hook
  pub same_sock : v.g_sock ≡ w.g_sock
  pub same_forks : Occurs (original fork_fn) v.trace ↔ Occurs (original fork_fn) w.trace
  pub same_mounts : (path : Text) → Occurs (umount path) v.trace ↔ Occurs (umount path) w.trace

positive : (u : World) → is_child u.ctx ≡ false → nonneg u.ctx.pid ≡ true
positive u parent = ground arith

called-parent :
    (env : Env) (u : World) → is_child u.ctx ≡ false → is_child (called env u).ctx ≡ false
called-parent env u parent =
    ap (λ c. is_child c) (lib_calls-Same env (env.original_calls u.trace) u).0.1 ∙ parent

leave_parent :
    (env : Env) (fd_max : ℕ) (f : StateFlag) (args : Args) (w : World)
    → is_child (forked env w).ctx ≡ false
    → has (add_flag 0 f) do_revert_unmount ≡ false
    → let u = emit sigprocmask_unblock (called env (at_fork env fd_max f args w)) in
      (leave env u ≡ some (env.int (sigprocmask_block ∷ w.trace) fork, record u { g_ctx = false }))
      × LeavesZygote w (record u { g_ctx = false })
unfolding leave destroy construct entries
leave_parent env fd_max f args w parent kept =
    let u = at_fork env fd_max f args w in
    let cs = env.original_calls u.trace in
    let ((e, c, h, g), s) = lib_calls-Same env cs u in
    (
      ground (arith, c),
      record {
        same_entries = e;
        no_modules = ap (λ x. x.modules) c;
        no_ctx = refl;
        same_hook = h;
        same_sock = s;
        same_forks = ground (arith, lib_calls-fork env cs u refl (positive u parent));
        same_mounts = λ path. ground (arith, lib_calls-umount env cs u path refl);
      },
    )

-- In zygote, with `g_hook` live, the pointer to the original `fork` set, and where `fork` has given a
-- positive process number, the replacement of each variant of both forking methods is defined,
-- returns that number, and leaves zygote as LeavesZygote says, whichever calls of a LibCall the
-- original method makes: of the hooked `fork`, `unshare`, `selinux_android_setcontext`,
-- `__android_log_close`, `strdup` (but for the name of ZygoteInit) and `dlclose` (but for its first
-- call).
pub fork_methods_zygote :
    (env : Env) (fd_max : ℕ) (m : Method) (j : JniArgs) (w : World) (h : HookContext)
    → w.g_hook ≡ live h
    → HasFork env w
    → is_child (forked env w).ctx ≡ false
    → let pid = env.int (sigprocmask_block ∷ w.trace) fork in
      ((v : World) × (fork_app env fd_max m j w ≡ some (pid, v)) × LeavesZygote w v)
      × ((v : World) × (fork_server env fd_max m j w ≡ some (pid, v)) × LeavesZygote w v)
unfolding construct has
fork_methods_zygote env fd_max m j w h up has parent =
    let start = construct fd_max (m.noted j) w in
    let app = at_fork env fd_max app_fork_and_specialize (m.noted j) w in
    let server = at_fork env fd_max server_fork_and_specialize (m.noted j) w in
    let (pre, _, post, _) =
      fork_paths_parent env start (called env app) has parent (called-parent env app parent) in
    let (_, pre', _, post') =
      fork_paths_parent env start (called env server) has parent
        (called-parent env server parent) in
    let left =
      leave_parent env fd_max app_fork_and_specialize (m.noted j) w parent
        (has-add_flag 0 app_fork_and_specialize do_revert_unmount) in
    let left' =
      leave_parent env fd_max server_fork_and_specialize (m.noted j) w parent
        (has-add_flag 0 server_fork_and_specialize do_revert_unmount) in
    (
      (_, fork_app-parts env fd_max m j w app _ _ h _ pre up post left.0, left.1),
      (_, fork_server-parts env fd_max m j w server _ _ h _ pre' up post' left'.0, left'.1),
    )
