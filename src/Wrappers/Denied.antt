-- ===== src/Wrappers/Denied.antt =====
-- The specialisation of a process on the denylist, through the whole replacement of the JNI method.
use zygisk_magisk_module.Prelude.{
  ℕ, le_zero, ◌≡◌, refl, ap, ◌∙◌, ◌↔◌, ◌⊎◌, true, false, some, [], map, arith, Occurs,
}
use zygisk_magisk_module.Flags.{app_specialize, skip_close_log_pipe, is_unmount}
use zygisk_magisk_module.World.{Text, umount, HookContext, live, Env, World}
use zygisk_magisk_module.Api.{clear_api}
use zygisk_magisk_module.Fds.{is_child}
use zygisk_magisk_module.Modules.{run_modules_post, post_specialize_all}
use zygisk_magisk_module.Modules.Frame.{entries, entries-is_jni}
use zygisk_magisk_module.Trace.{Grows-view, Grows-Occurs}
use zygisk_magisk_module.Jni.Zygote.{restore_zygote_hook}
use zygisk_magisk_module.Jni.Frame.{is_jni, restore_zygote_hook-Grows}
use zygisk_magisk_module.Scan.{get_module_info}
use zygisk_magisk_module.Hook.{lib_calls, destroy, hook_unloader, register_fn}
use zygisk_magisk_module.Hook.Forks.{lib_calls-umount, Unshared, IsMounted}
use zygisk_magisk_module.Lifecycle.{
  construct, set_flag, app_specialize_pre, native_specialize_app_process_pre,
  native_specialize_app_process_post, app_specialize_post,
}
use zygisk_magisk_module.Lifecycle.Denylist.{app_specialize_pre-denied}
use zygisk_magisk_module.JniMethods.{JniArgs, Method}
use zygisk_magisk_module.Wrappers.{specialize_app}
use zygisk_magisk_module.Wrappers.Parts.{specialize_app-parts}
use zygisk_magisk_module.Wrappers.Zygote.{lib_calls-Same}

-- The call of the daemon about the process.
abbrev pub asking : ℕ → Method → JniArgs → World → World
asking fd_max m j w =
    set_flag app_specialize (set_flag skip_close_log_pipe (construct fd_max (m.noted j) w))

-- No module: nothing is called, and at most an environment variable is set.
post_nothing :
    (env : Env) (w : World)
    → w.ctx.modules ≡ []
    → let v = app_specialize_post env w in
      (entries v.trace ≡ entries w.trace)
      × ((path : Text) → Occurs (umount path) v.trace ↔ Occurs (umount path) w.trace)
      × (v.ctx.pid ≡ w.ctx.pid)
      × (v.g_hook ≡ w.g_hook)
unfolding app_specialize_post run_modules_post post_specialize_all entries
post_nothing env w empty = rw empty (ground arith, λ path. ground arith, ground arith, ground arith)

-- The destructor in a child: no call of a module and no unmounting.
pub destroy_child :
    (env : Env) (w : World) (h : HookContext)
    → w.g_hook ≡ live h
    → is_child w.ctx ≡ true
    → (v : World) × (destroy env w ≡ some v)
      × (entries v.trace ≡ entries w.trace)
      × ((path : Text) → Occurs (umount path) v.trace ↔ Occurs (umount path) w.trace)
unfolding destroy hook_unloader register_fn entries is_jni
destroy_child env w h up child =
    let cleared : World = record w {
      g_ctx = false;
      ctx = record w.ctx { modules = map clear_api w.ctx.modules };
    } in
    let marked : HookContext = record h { should_unmap = true } in
    let back = restore_zygote_hook env marked w.trace in
    let r = hook_unloader env back.0 (record cleared { trace = back.1 }) in
    let grows = restore_zygote_hook-Grows env marked w.trace in
    let quiet = Grows-view is_jni entries entries-is_jni w.trace back.1 grows in
    (
      record r.1 { g_hook = live r.0 },
      ground arith,
      ground (arith, quiet),
      λ path. ground (arith, Grows-Occurs is_jni (umount path) w.trace back.1 refl grows),
    )

-- An app on the denylist, with `g_hook` live: the replacement of `nativeSpecializeAppProcess` is
-- defined and calls no module's function; and from the start of the original method on, a path
-- is unmounted exactly if it is one of the two of `revert_unmount` and the original method makes a
-- new mount namespace.
pub specialize_app_denied :
    (env : Env) (fd_max : ℕ) (m : Method) (j : JniArgs) (w : World) (h : HookContext)
    → w.g_hook ≡ live h
    → is_unmount (get_module_info env (asking fd_max m j w)).2.ctx.info_flags ≡ true
    → let u = native_specialize_app_process_pre env (construct fd_max (m.noted j) w) in
      (v : World) × (specialize_app env fd_max m j w ≡ some v)
      × (entries v.trace ≡ entries w.trace)
      × ((path : Text)
          → Occurs (umount path) v.trace ↔ (
              Occurs (umount path) u.trace
              ⊎ (Unshared env (env.original_calls u.trace) u × IsMounted path)))
unfolding native_specialize_app_process_pre native_specialize_app_process_post construct
specialize_app_denied env fd_max m j w h hook denied =
    let start = set_flag skip_close_log_pipe (construct fd_max (m.noted j) w) in
    let u = app_specialize_pre env start in
    let (quiet, fresh, wants, pid, up, same_hook) = app_specialize_pre-denied env start denied in
    let cs = env.original_calls u.trace in
    let o = lib_calls env cs u in
    let ((e, c, g, k), s) = lib_calls-Same env cs u in
    let (e', mounts, pid', hook') = post_nothing env o (ap (λ x. x.modules) c ∙ fresh) in
    let p = app_specialize_post env o in
    let child : is_child p.ctx ≡ true = ap le_zero (pid' ∙ ap (λ x. x.pid) c ∙ pid) in
    let (v, done, e'', mounts') = destroy_child env p h (hook' ∙ g ∙ same_hook ∙ hook) child in
    (
      v,
      specialize_app-parts env fd_max m j w u v h refl (same_hook ∙ hook) done,
      e'' ∙ e' ∙ e ∙ quiet,
      λ path. ground (arith, mounts' path, mounts path, lib_calls-umount env cs u path up, wants),
    )
