-- ===== src/Lifecycle/Server.antt =====
-- The specialisation of the system server: which functions of the modules are called before and
-- after the original method.
use zygisk_magisk_module.Prelude.{
  filter, subst, ℤ, nonneg, List, length, map, ◌≡◌, refl, ap, ◌∙◌, true, false, [], ◌∷◌, arith,
  if◌then◌else◌, All,
}
use zygisk_magisk_module.Flags.{has, app_specialize, server_fork_and_specialize}
use zygisk_magisk_module.World.{on_load, pre_server, post_server, no_args, Env, World}
use zygisk_magisk_module.Api.{valid}
use zygisk_magisk_module.Plt.{is_empty}
use zygisk_magisk_module.Scan.{get_module_info}
use zygisk_magisk_module.Modules.{load_fds, load_modules, pre_specialize, run_modules_pre}
use zygisk_magisk_module.Modules.Frame.{entries}
use zygisk_magisk_module.Modules.Calls.{
  after_load, load_modules-filter, rev_onto, entry_of, server_entry, run_modules_post_lem,
}
use zygisk_magisk_module.Modules.Loading.{IsLoaded, run_modules_pre_lem}
use zygisk_magisk_module.Modules.Loops.{run_modules_pre-Stays, run_modules_post-Stays}
use zygisk_magisk_module.Lifecycle.{server_specialize_pre, server_specialize_post}
use zygisk_magisk_module.Lifecycle.Denylist.{get_module_info-Keeps, get_module_info-flags}

-- The loops do nothing where there is no descriptor and no module.
run_unless_empty :
    (env : Env) (fds : List ℤ) (w : World)
    → w.ctx.modules ≡ []
    → let v = (if is_empty fds then w else run_modules_pre env fds w) in
      let u = run_modules_pre env fds w in
      (entries v.trace ≡ entries u.trace) × (v.ctx ≡ u.ctx) × (v.g_hook ≡ u.g_hook)
unfolding run_modules_pre load_fds load_modules pre_specialize
run_unless_empty env [] w empty = (ground arith, ground arith, ground arith)
run_unless_empty env (fd ∷ fds) w empty = (refl, refl, refl)

-- Where the daemon is connected, the first function runs the loops over the modules.
server_specialize_pre-run :
    (env : Env) (w : World)
    → w.ctx.modules ≡ []
    → let r = get_module_info env w in
      let u = run_modules_pre env r.1 r.2 in
      nonneg r.0 ≡ true
      → let v = server_specialize_pre env w in
        (entries v.trace ≡ entries u.trace) × (v.ctx ≡ u.ctx) × (v.g_hook ≡ u.g_hook)
unfolding server_specialize_pre entries
server_specialize_pre-run env w empty up =
    let r = get_module_info env w in
    let (_, fresh, _, _, _) = get_module_info-Keeps env w in
    let same = run_unless_empty env r.1 r.2 (fresh ∙ empty) in
    rw up (ground (arith, same), ground (arith, same), ground (arith, same))

-- In a context of the system server without modules: `onLoad` is called of each module that is
-- made, and `preServerSpecialize` of each that is valid then, in this order; the process number and
-- `g_hook` stay, and the process is known to be the system server and no app.
pub server_specialize_pre-calls :
    (env : Env) (w : World)
    → w.ctx.modules ≡ []
    → has w.ctx.flags app_specialize ≡ false
    → has w.ctx.flags server_fork_and_specialize ≡ true
    → let r = get_module_info env w in
      let loaded = (load_fds env 0 r.1 r.2).1 in
      let kept = filter valid (after_load env loaded.ctx.modules loaded) in
      let v = server_specialize_pre env w in
      nonneg r.0 ≡ true
      → All (IsLoaded 0 (length r.1)) loaded.ctx.modules
        × All (λ k. valid k ≡ true) kept
        × (entries v.trace
            ≡ rev_onto (map (server_entry pre_server) kept) (
                rev_onto
                  (map (λ k. entry_of k on_load no_args) loaded.ctx.modules)
                  (entries w.trace)))
        × (v.ctx.modules ≡ (run_modules_pre env r.1 r.2).ctx.modules)
        × (v.ctx.pid ≡ w.ctx.pid)
        × (v.g_hook ≡ w.g_hook)
        × (has v.ctx.flags app_specialize ≡ false)
        × (has v.ctx.flags server_fork_and_specialize ≡ true)
server_specialize_pre-calls env w empty app server up =
    let r = get_module_info env w in
    let loaded = (load_fds env 0 r.1 r.2).1 in
    let kept = filter valid (after_load env loaded.ctx.modules loaded) in
    let (quiet, fresh, pid, ctx, same_hook) = get_module_info-Keeps env w in
    let flags = get_module_info-flags env w in
    let app' = ap (λ x. has x app_specialize) flags ∙ app in
    let server' = ap (λ x. has x server_fork_and_specialize) flags ∙ server in
    let (made, ok, _, calls) = run_modules_pre_lem env r.1 r.2 (fresh ∙ empty) in
    let (pre_pid, pre_hook, _, pre_app_flag, pre_server_flag) = run_modules_pre-Stays env r.1 r.2 in
    let (e, c, g) = server_specialize_pre-run env w empty up in
    let same = load_modules-filter env loaded.ctx.modules loaded in
    (
      made,
      subst (All (λ k. valid k ≡ true)) same ok,
      e
          ∙ calls app' server'
          ∙ ap
              (λ ks. rev_onto (map (server_entry pre_server) ks) (
                rev_onto (map (λ k. entry_of k on_load no_args) loaded.ctx.modules)
                  (entries r.2.trace)))
              same
          ∙ ap
              (λ t.
                rev_onto (map (server_entry pre_server) kept)
                  (rev_onto (map (λ k. entry_of k on_load no_args) loaded.ctx.modules) t))
              quiet,
      ap (λ x. x.modules) c,
      ap (λ x. x.pid) c ∙ pre_pid ∙ pid,
      g ∙ pre_hook ∙ same_hook,
      ap (λ x. has x.flags app_specialize) c ∙ pre_app_flag ∙ app',
      ap (λ x. has x.flags server_fork_and_specialize) c ∙ pre_server_flag ∙ server',
    )

-- After the original method, `postServerSpecialize` is called of each of the modules, in order.
pub server_specialize_post-calls :
    (env : Env) (w : World)
    → All (λ k. valid k ≡ true) w.ctx.modules
    → has w.ctx.flags app_specialize ≡ false
    → has w.ctx.flags server_fork_and_specialize ≡ true
    → let v = server_specialize_post env w in
      (entries v.trace ≡ rev_onto (map (server_entry post_server) w.ctx.modules) (entries w.trace))
      × (v.ctx.pid ≡ w.ctx.pid)
      × (v.g_hook ≡ w.g_hook)
unfolding server_specialize_post
server_specialize_post-calls env w all app server =
    let (_, calls) = run_modules_post_lem env w all in
    let (pid, hook, _, _, _) = run_modules_post-Stays env w in (calls app server, pid, hook)
