-- ===== src/Lifecycle/Allowed.antt =====
-- The specialisation of an app that is not on the denylist: which functions of the modules are
-- called before and after the original method.
use zygisk_magisk_module.Prelude.{
  filter, subst, ℤ, nonneg, List, length, map, ◌≡◌, ap, ◌∙◌, true, false, [], arith, All,
}
use zygisk_magisk_module.Flags.{has, app_specialize, is_unmount}
use zygisk_magisk_module.Flags.Laws.{has-add_flag}
use zygisk_magisk_module.World.{on_load, pre_app, post_app, no_args, Env, World}
use zygisk_magisk_module.Api.{valid}
use zygisk_magisk_module.Scan.{get_module_info}
use zygisk_magisk_module.Modules.{load_fds, run_modules_pre, run_modules_post}
use zygisk_magisk_module.Modules.Frame.{entries}
use zygisk_magisk_module.Modules.Calls.{
  after_load, load_modules-filter, rev_onto, entry_of, app_entry, run_modules_post_lem,
}
use zygisk_magisk_module.Modules.Loading.{IsLoaded, run_modules_pre_lem}
use zygisk_magisk_module.Modules.Loops.{run_modules_pre-Stays, run_modules_post-Stays}
use zygisk_magisk_module.Lifecycle.{set_flag, app_specialize_pre, app_specialize_post}
use zygisk_magisk_module.Lifecycle.Denylist.{get_module_info-Keeps, get_module_info-flags}

-- What the daemon's answer led to: a descriptor, those of the libraries, and the state.
abbrev pub app_info : Env → World → ℤ × List ℤ × World
app_info env w = get_module_info env (set_flag app_specialize w)

-- The state after the loops over the modules.
abbrev pub app_modules : Env → World → World
app_modules env w = let (_, fds, v) = app_info env w in run_modules_pre env fds v

-- Not on the denylist, the first function runs the loops over the modules.
app_specialize_pre-run :
    (env : Env) (w : World)
    → let r = get_module_info env (set_flag app_specialize w) in
      let u = run_modules_pre env r.1 r.2 in
      is_unmount r.2.ctx.info_flags ≡ false
      → nonneg r.0 ≡ true
      → let v = app_specialize_pre env w in
        (entries v.trace ≡ entries u.trace) × (v.ctx ≡ u.ctx) × (v.g_hook ≡ u.g_hook)
unfolding app_specialize_pre entries
app_specialize_pre-run env w kept up = rw (kept, up) (ground arith, ground arith, ground arith)

-- In a context without modules, an app that is not on the denylist: `onLoad` is called of each
-- module that is made, and `preAppSpecialize` of each that is valid then, in this order; the
-- process number and `g_hook` stay, and the process is known to be an app.
pub app_specialize_pre-calls :
    (env : Env) (w : World)
    → w.ctx.modules ≡ []
    → let r = get_module_info env (set_flag app_specialize w) in
      let loaded = (load_fds env 0 r.1 r.2).1 in
      let kept = filter valid (after_load env loaded.ctx.modules loaded) in
      let v = app_specialize_pre env w in
      is_unmount r.2.ctx.info_flags ≡ false
      → nonneg r.0 ≡ true
      → All (IsLoaded 0 (length r.1)) loaded.ctx.modules
        × All (λ k. valid k ≡ true) kept
        × (entries v.trace
            ≡ rev_onto (map (app_entry pre_app) kept) (
                rev_onto
                  (map (λ k. entry_of k on_load no_args) loaded.ctx.modules)
                  (entries w.trace)))
        × (v.ctx.modules ≡ (run_modules_pre env r.1 r.2).ctx.modules)
        × (v.ctx.pid ≡ w.ctx.pid)
        × (v.g_hook ≡ w.g_hook)
        × (has v.ctx.flags app_specialize ≡ true)
app_specialize_pre-calls env w empty not_denied up =
    let start = set_flag app_specialize w in
    let r = get_module_info env start in
    let loaded = (load_fds env 0 r.1 r.2).1 in
    let kept = filter valid (after_load env loaded.ctx.modules loaded) in
    let (quiet, fresh, pid, ctx, same_hook) = get_module_info-Keeps env start in
    let app : has r.2.ctx.flags app_specialize ≡ true =
      ap (λ x. has x app_specialize) (get_module_info-flags env start)
      ∙ ground (arith, has-add_flag w.ctx.flags app_specialize app_specialize) in
    let (made, ok, calls, _) = run_modules_pre_lem env r.1 r.2 (fresh ∙ empty) in
    let (pre_pid, pre_hook, _, pre_app_flag, _) = run_modules_pre-Stays env r.1 r.2 in
    let (e, c, g) = app_specialize_pre-run env w not_denied up in
    let same = load_modules-filter env loaded.ctx.modules loaded in
    (
      made,
      subst (All (λ k. valid k ≡ true)) same ok,
      e
          ∙ calls app
          ∙ ap
              (λ ks. rev_onto (map (app_entry pre_app) ks) (
                rev_onto (map (λ k. entry_of k on_load no_args) loaded.ctx.modules)
                  (entries r.2.trace)))
              same
          ∙ ap
              (λ t.
                rev_onto (map (app_entry pre_app) kept)
                  (rev_onto (map (λ k. entry_of k on_load no_args) loaded.ctx.modules) t))
              quiet,
      ap (λ x. x.modules) c,
      ap (λ x. x.pid) c ∙ pre_pid ∙ pid,
      g ∙ pre_hook ∙ same_hook,
      ap (λ x. has x.flags app_specialize) c ∙ pre_app_flag ∙ app,
    )

app_specialize_post-run :
    (env : Env) (w : World)
    → let v = app_specialize_post env w in
      let u = run_modules_post env w in
      (entries v.trace ≡ entries u.trace) × (v.ctx ≡ u.ctx) × (v.g_hook ≡ u.g_hook)
unfolding app_specialize_post entries
app_specialize_post-run env w = (ground arith, ground arith, ground arith)

-- After the original method, `postAppSpecialize` is called of each of the modules, in order.
pub app_specialize_post-calls :
    (env : Env) (w : World)
    → All (λ k. valid k ≡ true) w.ctx.modules
    → has w.ctx.flags app_specialize ≡ true
    → let v = app_specialize_post env w in
      (entries v.trace ≡ rev_onto (map (app_entry post_app) w.ctx.modules) (entries w.trace))
      × (v.ctx.pid ≡ w.ctx.pid)
      × (v.g_hook ≡ w.g_hook)
app_specialize_post-calls env w all app =
    let (calls, _) = run_modules_post_lem env w all in
    let (pid, hook, _, _, _) = run_modules_post-Stays env w in
    let (e, c, g) = app_specialize_post-run env w in
    (e ∙ calls app, ap (λ x. x.pid) c ∙ pid, g ∙ hook)
