-- ===== src/Boot/Callbacks.antt =====
-- Where the runtime callbacks in the context of the hooks come from.
use zygisk_magisk_module.Prelude.{
  ℕ, ◌≤◌, ◌<◌, ◌≡◌, sym, subst, ◌∙◌, ◌⊎◌, inl, inr, List, [], ◌∷◌, arith, Occurs,
}
use zygisk_magisk_module.World.{
  Text, Call, original, attr_destroy_fn, backtrace, Env, PltBackup, Pointer, nullptr, dangling,
  live, HookContext, HookedFn, World,
}
use zygisk_magisk_module.Bridge.{post_native_bridge_load, find_art_data}
use zygisk_magisk_module.Bridge.Search.{post_native_bridge_load_lem, FirstWithin-bounds}
use zygisk_magisk_module.Hook.{hook_entry, hook_plt, new_hook, register_fn, restore_all}

-- The runtime callbacks are not set, or point into the data of libart.so as a map of the process
-- has shown it.
abbrev pub HasCallbacks : Env → HookContext → Type 0
HasCallbacks env h =
    (h.runtime_callbacks ≡ 0)
    ⊎ ((t : List Call) × let (start, end) = find_art_data (env.maps t) in
          (start ≤ h.runtime_callbacks) × (h.runtime_callbacks < end))

-- `g_hook` dangles only in a process in which the original `pthread_attr_destroy` was called through
-- the hook.
abbrev pub IsSound : Env → Pointer HookContext → List Call → Type 0
IsSound env nullptr t = Unit {0}
IsSound env dangling t = Occurs (original attr_destroy_fn) t
IsSound env (live h) t = HasCallbacks env h

register_fn-callbacks :
    (env : Env) (dev inode : ℕ) (symbol : Text) (f : HookedFn) (s : HookContext × World)
    → (register_fn env dev inode symbol f s).0.runtime_callbacks ≡ s.0.runtime_callbacks
unfolding register_fn
register_fn-callbacks env dev inode symbol f s = ground arith

hook_plt-callbacks :
    (env : Env) (h : HookContext) (w : World)
    → (hook_plt env h w).0.runtime_callbacks ≡ h.runtime_callbacks
unfolding hook_plt
hook_plt-callbacks env h w =
    register_fn-callbacks env _ _ _ _ _
    ∙ register_fn-callbacks env _ _ _ _ _
    ∙ register_fn-callbacks env _ _ _ _ _
    ∙ register_fn-callbacks env _ _ _ _ _
    ∙ register_fn-callbacks env _ _ _ _ _
    ∙ register_fn-callbacks env _ _ _ _ _

pub HasCallbacks-same :
    (env : Env) (h g : HookContext)
    → g.runtime_callbacks ≡ h.runtime_callbacks
    → HasCallbacks env h
    → HasCallbacks env g
HasCallbacks-same env h g same (inl none_set) = inl (same ∙ none_set)
HasCallbacks-same env h g same (inr (t, (above, below))) =
    let (start, end) = find_art_data (env.maps t) in
    inr (t, (subst (λ c. start ≤ c) (sym same) above, subst (λ c. c < end) (sym same) below))

pub post_native_bridge_load-HasCallbacks :
    (env : Env) (handle : ℕ) (h : HookContext) (t : List Call)
    → HasCallbacks env h
    → HasCallbacks env (post_native_bridge_load env handle h t).0
post_native_bridge_load-HasCallbacks env handle h t has =
    let r = (post_native_bridge_load env handle h t).0 in
    elim (post_native_bridge_load_lem env handle h t).1 [
      | inl (same, loads, why) ↦ HasCallbacks-same env h r same has
      | inr (f, first, has_fn, given, found, loads) ↦
          let range = find_art_data (env.maps (backtrace ∷ t)) in
          inr (backtrace ∷ t, FirstWithin-bounds range _ _ found given)
    ]

pub restore_all-original :
    (env : Env) (bs : List PltBackup) (w : World)
    → Occurs (original attr_destroy_fn) w.trace
    → Occurs (original attr_destroy_fn) (restore_all env bs w).1.trace
unfolding restore_all
restore_all-original env [] w h = h
restore_all-original env (b ∷ bs) w h = restore_all-original env bs _ (inr h)

pub hook_entry-IsSound :
    (env : Env) (w : World) → IsSound env (hook_entry env w).g_hook (hook_entry env w).trace
unfolding hook_entry new_hook
hook_entry-IsSound env w = inl (hook_plt-callbacks env (new_hook env) w)
