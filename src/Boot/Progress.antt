-- ===== src/Boot/Progress.antt =====
-- The start of the library gets to its end.
use zygisk_magisk_module.Prelude.{ℕ, ◌≡◌, ◌≢◌, refl, sym, ap, ◌∙◌, some, List, ◌∷◌, arith}
use zygisk_magisk_module.World.{
  Text, text, Call, HookedFn, StackFrame, Env, HookContext, live, World, original, strdup_fn,
}
use zygisk_magisk_module.Hook.{hook_entry, hook_plt, new_hook, register_fn}
use zygisk_magisk_module.Plt.Selection.{eq_text_iff}
use zygisk_magisk_module.Jni.Zygote.{replace_in_zygote, hook_zygote_jni}
use zygisk_magisk_module.Bridge.{post_native_bridge_load}
use zygisk_magisk_module.Bridge.Search.{Shows, post_native_bridge_load-finds}
use zygisk_magisk_module.Boot.{
  new_dlclose, new_strdup, zygote_init, checks_compatible, closes_library, copies_string,
  handle_event, is_compatible,
}
use zygisk_magisk_module.Boot.Start.{FindsVm, LacksJni, hook_zygote_jni-replaces}

register_fn-handle :
    (env : Env) (dev inode : ℕ) (symbol : Text) (f : HookedFn) (s : HookContext × World)
    → (register_fn env dev inode symbol f s).0.self_handle ≡ s.0.self_handle
unfolding register_fn
register_fn-handle env dev inode symbol f s = ground arith

hook_plt-handle :
    (env : Env) (h : HookContext) (w : World) → (hook_plt env h w).0.self_handle ≡ h.self_handle
unfolding hook_plt
hook_plt-handle env h w =
    register_fn-handle env _ _ _ _ _
    ∙ register_fn-handle env _ _ _ _ _
    ∙ register_fn-handle env _ _ _ _ _
    ∙ register_fn-handle env _ _ _ _ _
    ∙ register_fn-handle env _ _ _ _ _
    ∙ register_fn-handle env _ _ _ _ _

new_hook-handle : (env : Env) → (new_hook env).self_handle ≡ 0
unfolding new_hook
new_hook-handle env = refl

starts :
    (env : Env) (w : World)
    → let (h, v) = hook_plt env (new_hook env) w in
      handle_event env checks_compatible w ≡ some (record v { g_hook = live h })
unfolding handle_event is_compatible hook_entry
starts env w = refl

-- The hook of `dlclose` at its first call.
dlclose-first :
    (env : Env) (handle : ℕ) (w : World) (h : HookContext)
    → w.g_hook ≡ live h
    → h.self_handle ≡ 0
    → let r = post_native_bridge_load env handle h w.trace in
      handle_event env (closes_library handle) w
      ≡ some (record w { g_hook = live r.0; trace = r.1 })
unfolding handle_event new_dlclose
dlclose-first env handle w h up unset = ground arith

strdup-first :
    (env : Env) (w : World) (h : HookContext) (r : HookContext × List Call)
    → w.g_hook ≡ live h
    → hook_zygote_jni env h w.trace ≡ some r
    → handle_event env (copies_string zygote_init) w
      ≡ some (record w { g_hook = live r.0; trace = original strdup_fn ∷ r.1 })
unfolding handle_event new_strdup
strdup-first env w h r up hooked = ground (arith, eq_text_iff zygote_init zygote_init)

-- Before the first `dlclose`: the context of the hooks, and the world.
abbrev pub started : Env → World → HookContext × World
started env w = hook_plt env (new_hook env) w

-- After it.
abbrev pub loaded : Env → ℕ → World → HookContext × List Call
loaded env handle w = let (h, v) = started env w in post_native_bridge_load env handle h v.trace

-- Three events, one after the other: `isCompatible` starts the library, the loader of the native
-- bridge closes it by the hooked `dlclose`, and the hooked `strdup` copies
-- "com.android.internal.os.ZygoteInit". If the call stack and the maps show the runtime callbacks at
-- the second event and there is a Java VM with a JNIEnv at the third, then all three are defined,
-- after the second `g_hook` points to a context with the handle and the callbacks, and the third
-- replaces the methods of Zygote with it.
pub startup-Reaches :
    (env : Env) (w : World) (handle : ℕ) (f : StackFrame) (v : ℕ)
    → Shows env (started env w).1.trace f v
    → FindsVm env (loaded env handle w).1
    → (LacksJni env (loaded env handle w).1 → ⊥)
    → (w1 : World) × (w2 : World) × (u : World) × (h : HookContext) × (t : List Call)
      × (handle_event env checks_compatible w ≡ some w1)
      × (handle_event env (closes_library handle) w1 ≡ some w2)
      × (w2.g_hook ≡ live h)
      × (handle_event env (copies_string (text "com.android.internal.os.ZygoteInit")) w2 ≡ some u)
      × (h.self_handle ≡ handle)
      × (h.runtime_callbacks ≡ v)
      × (u.g_hook ≡ live (replace_in_zygote env h t).0)
      × (u.trace ≡ original strdup_fn ∷ (replace_in_zygote env h t).1)
unfolding is_compatible hook_entry
startup-Reaches env w handle f v shows finds given =
    let (h1, v1) = started env w in
    let w1 : World = record v1 { g_hook = live h1 } in
    let unset : h1.self_handle ≡ 0 = hook_plt-handle env (new_hook env) w ∙ new_hook-handle env in
    let (h2, t2) = loaded env handle w in
    let w2 : World = record w1 { g_hook = live h2; trace = t2 } in
    let found = post_native_bridge_load-finds env handle h1 v1.trace f v shows in
    let callbacks : h2.runtime_callbacks ≡ v = ap (λ h. h.runtime_callbacks) found in
    let has : h2.runtime_callbacks ≢ 0 = λ e. shows.3 (sym callbacks ∙ e) in
    let (t, hooked) = hook_zygote_jni-replaces env h2 t2 finds given has in
    let first : handle_event env checks_compatible w ≡ some w1 = starts env w in
    let second = dlclose-first env handle w1 h1 refl unset in
    let third = strdup-first env w2 h2 (replace_in_zygote env h2 t) refl hooked in
    (
      w1,
      w2,
      _,
      h2,
      t,
      first,
      second,
      refl,
      third,
      ap (λ h. h.self_handle) found,
      callbacks,
      refl,
      refl,
    )
