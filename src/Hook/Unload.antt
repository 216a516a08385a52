-- ===== src/Hook/Unload.antt =====
-- When the library is closed, and what is out of reach after a context is gone.
use zygisk_magisk_module.Prelude.{
  ℕ, ◌≡◌, refl, sym, subst, ◌↔◌, ◌⊎◌, true, false, none, some, List, [], ◌∷◌, map, arith, All,
  Occurs,
}
use zygisk_magisk_module.World.{
  Call, register_hook, old_func, dlclose, original, attr_destroy_fn, ApiCall, register_module,
  hook_jni_native_methods, plt_hook_register, plt_hook_register_v4, plt_hook_exclude, exempt_fd,
  plt_hook_commit, connect_companion, set_option, get_module_dir, get_flags, Env, ZygiskModule,
  PltBackup, HookContext, live, World,
}
use zygisk_magisk_module.Ipc.Bytes.{emit}
use zygisk_magisk_module.Fds.{is_child}
use zygisk_magisk_module.Api.{clear_api}
use zygisk_magisk_module.Jni.Zygote.{restore_zygote_hook}
use zygisk_magisk_module.Modules.{invoke, invoke_all, offers}
use zygisk_magisk_module.Hook.{
  restore_all, restore_plt_hook, new_attr_destroy, destroy, hook_unloader, register_fn,
}

abbrev way_back : PltBackup → Call
way_back b = register_hook b.dev b.inode b.symbol (old_func b.old)

-- lsplt accepts the way back of each hook, one after the other.
abbrev pub AllRestored : Env → List PltBackup → World → Type 0
AllRestored env [] w = Unit {0}
AllRestored env (b ∷ bs) w =
    (env.registers w.trace (way_back b) ≡ true) × AllRestored env bs (emit (way_back b) w)

restore_all_iff :
    (env : Env) (bs : List PltBackup) (w : World)
    → ((restore_all env bs w).0 ≡ true) ↔ AllRestored env bs w
unfolding restore_all
restore_all_iff env [] w = (λ h. tt, λ h. refl)
restore_all_iff env (b ∷ bs) w = ground (arith, restore_all_iff env bs (emit (way_back b) w))

restore_all-Occurs :
    (env : Env) (bs : List PltBackup) (w : World) (handle : ℕ)
    → Occurs (dlclose handle) (restore_all env bs w).1.trace ↔ Occurs (dlclose handle) w.trace
unfolding restore_all
restore_all-Occurs env [] w handle = (λ h. h, λ h. h)
restore_all-Occurs env (b ∷ bs) w handle =
    ground (arith, restore_all-Occurs env bs (emit (way_back b) w) handle)

-- On the main thread, the hook of `pthread_attr_destroy` closes the library exactly if this is
-- wanted, lsplt accepts the way back of every hook, and the commit succeeds: no hook that could
-- not be taken back is left pointing into a closed library.
pub new_attr_destroy-closes :
    (env : Env) (w v : World) (h : HookContext)
    → w.g_hook ≡ live h
    → env.main_thread (original attr_destroy_fn ∷ w.trace) ≡ true
    → new_attr_destroy env w ≡ some v
    → let u = emit (original attr_destroy_fn) w in
      Occurs (dlclose h.self_handle) v.trace ↔ (
        ((h.should_unmap ≡ true)
          × AllRestored env h.plt_backup u
          × (env.commits (restore_all env h.plt_backup u).1.trace ≡ true))
        ⊎ Occurs (dlclose h.self_handle) w.trace)
unfolding new_attr_destroy restore_plt_hook
new_attr_destroy-closes env w v h up main done =
    let u = emit (original attr_destroy_fn) w in
    ground (
      arith,
      restore_all_iff env h.plt_backup u,
      restore_all-Occurs env h.plt_backup u h.self_handle,
    )

-- `g_hook` is deleted also when a hook could not be taken back. The hook of `pthread_attr_destroy`
-- may then still be in place, and its next call on the main thread reads the deleted object.
pub new_attr_destroy_twice :
    (env : Env) (w v : World) (h : HookContext)
    → w.g_hook ≡ live h
    → env.main_thread (original attr_destroy_fn ∷ w.trace) ≡ true
    → new_attr_destroy env w ≡ some v
    → env.main_thread (original attr_destroy_fn ∷ v.trace) ≡ true
    → new_attr_destroy env v ≡ none
unfolding new_attr_destroy restore_plt_hook
new_attr_destroy_twice env w v h up main done again = ground (arith)

invoke-clear_api :
    (env : Env) (c : ApiCall) (m : ZygiskModule) (w : World)
    → invoke env c (clear_api m) w ≡ (clear_api m, w)
unfolding invoke clear_api offers
invoke-clear_api env (register_module abi) m w = refl
invoke-clear_api env (hook_jni_native_methods given clz methods) m w = refl
invoke-clear_api env (plt_hook_register regex symbol fn) m w = refl
invoke-clear_api env (plt_hook_register_v4 dev inode symbol fn) m w = refl
invoke-clear_api env (plt_hook_exclude regex symbol) m w = refl
invoke-clear_api env (exempt_fd fd) m w = refl
invoke-clear_api env plt_hook_commit m w = refl
invoke-clear_api env connect_companion m w = refl
invoke-clear_api env (set_option option) m w = refl
invoke-clear_api env get_module_dir m w = refl
invoke-clear_api env get_flags m w = refl

invoke_all-clear_api :
    (env : Env) (cs : List ApiCall) (m : ZygiskModule) (w : World)
    → invoke_all env cs (clear_api m) w ≡ (clear_api m, w)
unfolding invoke_all
invoke_all-clear_api env [] m w = refl
invoke_all-clear_api env (c ∷ cs) m w =
    rw (invoke-clear_api env c m w) (invoke_all-clear_api env cs m w)

-- A module that can no longer do anything through the API.
abbrev pub IsCutOff : Env → ZygiskModule → Type 0
IsCutOff env m = (cs : List ApiCall) (w : World) → invoke_all env cs m w ≡ (m, w)

clear_api-IsCutOff : (env : Env) (ms : List ZygiskModule) → All (IsCutOff env) (map clear_api ms)
clear_api-IsCutOff env [] = tt
clear_api-IsCutOff env (m ∷ ms) =
    (λ cs w. invoke_all-clear_api env cs m w, clear_api-IsCutOff env ms)

hook_unloader-Keeps :
    (env : Env) (h : HookContext) (w : World)
    → let r = hook_unloader env h w in
      (r.0.should_unmap ≡ h.should_unmap) × (r.1.ctx ≡ w.ctx) × (r.1.g_ctx ≡ w.g_ctx)
unfolding hook_unloader register_fn
hook_unloader-Keeps env h w = ground arith

-- In a child whose `g_hook` is live, the destructor of the context is defined: the global pointer
-- to the context is null after it, no module can do anything through the API any more, and the
-- library is marked for its unloading. In the parent it only resets the global pointer.
pub destroy-IsCutOff :
    (env : Env) (w : World) (h : HookContext)
    → w.g_hook ≡ live h
    → (is_child w.ctx ≡ false → destroy env w ≡ some (record w { g_ctx = false }))
      × (is_child w.ctx ≡ true
          → (v : World) × (h' : HookContext) × (destroy env w ≡ some v)
            × (v.g_hook ≡ live h')
            × (h'.should_unmap ≡ true)
            × (v.g_ctx ≡ false)
            × All (IsCutOff env) v.ctx.modules)
unfolding destroy restore_zygote_hook
destroy-IsCutOff env w h up =
    let cleared : World = record w {
      g_ctx = false;
      ctx = record w.ctx { modules = map clear_api w.ctx.modules };
    } in
    let back = restore_zygote_hook env (record h { should_unmap = true }) w.trace in
    let restored : World = record cleared { trace = back.1 } in
    let r = hook_unloader env back.0 restored in
    let (mark, same, gone) = hook_unloader-Keeps env back.0 restored in
    (
      λ parent. ground arith,
      λ child. (
        record r.1 { g_hook = live r.0 },
        r.0,
        ground arith,
        refl,
        mark,
        gone,
        subst (λ c. All (IsCutOff env) c.modules) (sym same) (clear_api-IsCutOff env w.ctx.modules),
      ),
    )
