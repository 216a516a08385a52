-- ===== src/Modules/Ids.antt =====
-- A module keeps its number, and the list of modules its order, through the loops.
use zygisk_magisk_module.Prelude.{
  ℤ, filter, ◌≡◌, refl, ap, ◌∙◌, List, [], ◌∷◌, map, arith, Bool-cases, Option-cases, inl, inr,
}
use zygisk_magisk_module.World.{
  ApiCall, register_module, hook_jni_native_methods, plt_hook_register, plt_hook_register_v4,
  plt_hook_exclude, exempt_fd, plt_hook_commit, connect_companion, set_option, get_module_dir,
  get_flags, Callback, ArgsView, server_v1, pre_app, pre_server, enter_module, Env, ZygiskModule,
  World,
}
use zygisk_magisk_module.Ipc.Bytes.{emit}
use zygisk_magisk_module.Api
use zygisk_magisk_module.Modules.{
  apply_option, call_api, needs, invoke, invoke_all, enter, app_view, call_app, call_server,
  specialize, pre_specialize, load_fds, load_modules, run_modules_pre,
}
use zygisk_magisk_module.Modules.Calls.{after_load, load_modules-filter}
use zygisk_magisk_module.Api.{valid}

call_api-id :
    (env : Env) (c : ApiCall) (m : ZygiskModule) (w : World) → (call_api env c m w).0.id ≡ m.id
unfolding call_api apply_option Api.register_module
call_api-id env (register_module abi) m w = ground arith
call_api-id env (hook_jni_native_methods given clz methods) m w = refl
call_api-id env (plt_hook_register regex symbol fn) m w = refl
call_api-id env (plt_hook_register_v4 dev inode symbol fn) m w = refl
call_api-id env (plt_hook_exclude regex symbol) m w = refl
call_api-id env (exempt_fd fd) m w = refl
call_api-id env plt_hook_commit m w = refl
call_api-id env connect_companion m w = refl
call_api-id env (set_option option) m w = ground arith
call_api-id env get_module_dir m w = refl
call_api-id env get_flags m w = refl

invoke-id :
    (env : Env) (c : ApiCall) (m : ZygiskModule) (w : World) → (invoke env c m w).0.id ≡ m.id
unfolding invoke
invoke-id env c m w = elim (Bool-cases (needs m.api c)) [
  | inl there ↦ rw there (call_api-id env c m w)
  | inr missing ↦ rw missing refl
]

invoke_all-id :
    (env : Env) (cs : List ApiCall) (m : ZygiskModule) (w : World)
    → (invoke_all env cs m w).0.id ≡ m.id
unfolding invoke_all
invoke_all-id env [] m w = refl
invoke_all-id env (c ∷ cs) m w =
    let r = invoke env c m w in invoke_all-id env cs r.0 r.1 ∙ invoke-id env c m w

enter-id :
    (env : Env) (cb : Callback) (view : ArgsView) (m : ZygiskModule) (w : World)
    → (enter env cb view m w).0.id ≡ m.id
unfolding enter
enter-id env cb view m w =
    invoke_all-id env (env.behaviour w.trace m.id cb) m (emit (enter_module m.id cb view) w)

call_app-id :
    (env : Env) (cb : Callback) (m : ZygiskModule) (w : World) → (call_app env cb m w).0.id ≡ m.id
unfolding call_app
call_app-id env cb m w = elim (Option-cases m.abi) [
  | inl missing ↦ ground arith
  | inr (a, abi) ↦ elim (Option-cases (app_view a.api_version)) [
    | inl unknown ↦ ground arith
    | inr (view, known) ↦ ground (arith, enter-id env cb view m w)
  ]
]

call_server-id :
    (env : Env) (cb : Callback) (m : ZygiskModule) (w : World)
    → (call_server env cb m w).0.id ≡ m.id
unfolding call_server
call_server-id env cb m w = ground (arith, enter-id env cb server_v1 m w)

specialize-id :
    (env : Env) (for_app for_server : Callback) (m : ZygiskModule) (w : World)
    → (specialize env for_app for_server m w).0.id ≡ m.id
unfolding specialize
specialize-id env for_app for_server m w =
    ground (arith, call_app-id env for_app m w, call_server-id env for_server m w)

-- The third loop drops no module and keeps their order.
pub pre_specialize-ids :
    (env : Env) (ms : List ZygiskModule) (w : World)
    → map (λ m. m.id) (pre_specialize env ms w).0 ≡ map (λ m. m.id) ms
unfolding pre_specialize
pre_specialize-ids env [] w = refl
pre_specialize-ids env (m ∷ ms) w =
    let r = specialize env pre_app pre_server m w in
    ap (λ i. i ∷ map (λ k. k.id) (pre_specialize env ms r.1).0)
      (specialize-id env pre_app pre_server m w)
    ∙ ap (λ is. m.id ∷ is) (pre_specialize-ids env ms r.1)

-- The modules after `run_modules_pre` are those that were valid after `onLoad`.
pub run_modules_pre-ids :
    (env : Env) (fds : List ℤ) (w : World)
    → let loaded = (load_fds env 0 fds w).1 in
      map (λ k. k.id) (run_modules_pre env fds w).ctx.modules
      ≡ map (λ k. k.id) (filter valid (after_load env loaded.ctx.modules loaded))
unfolding run_modules_pre
run_modules_pre-ids env fds w =
    let loaded = (load_fds env 0 fds w).1 in
    let r = load_modules env loaded.ctx.modules loaded in
    let u : World = record r.1 { ctx = record r.1.ctx { modules = r.0 } } in
    pre_specialize-ids env r.0 u
    ∙ ap (map (λ k. k.id)) (load_modules-filter env loaded.ctx.modules loaded)
