-- ===== src/Boot/Laws.antt =====
-- What holds of a process, whatever events come.
use zygisk_magisk_module.Prelude.{
  ℕ, ◌≤◌, ◌<◌, ℤ, ◌≡◌, refl, sym, subst, ◌⊎◌, inl, inr, ◌==◌, some, List, ◌∷◌, arith, Bool-cases,
  Option-cases, Occurs,
}
use mathlib.Core.Option.{some-injective}
use zygisk_magisk_module.World.{
  Text, Call, original, attr_destroy_fn, strdup_fn, Env, LibCall, forks, closes_log, sets_context,
  copies, closes, unshares, Pointer, nullptr, dangling, live, HookContext, World,
}
use zygisk_magisk_module.Ipc.Connect.{zygisk_disconnect}
use zygisk_magisk_module.Ipc.Bytes.{emit}
use zygisk_magisk_module.Plt.{eq_text}
use zygisk_magisk_module.Jni.Zygote.{hook_zygote_jni}
use zygisk_magisk_module.Jni.Replace.{hook_zygote_jni-SameHook}
use zygisk_magisk_module.Bridge.{find_art_data, post_native_bridge_load}
use zygisk_magisk_module.Wrappers.{fork_app, fork_server}
use zygisk_magisk_module.Boot.Replaced.{
  Pointer-cases, KeepsCallbacks, fork_app-KeepsCallbacks, fork_server-KeepsCallbacks,
  specialize_app-KeepsCallbacks,
}
use zygisk_magisk_module.Hook.{
  hook_entry, restore_plt_hook, new_attr_destroy, lib_call, new_fork, new_unshare, revert_unmount,
  new_setcontext, new_log_close,
}
use zygisk_magisk_module.Wrappers.Zygote.{lib_call-Same}
use zygisk_magisk_module.Boot.{
  new_dlclose, new_strdup, zygote_init, Event, checks_compatible, unloads_bridge, destroys_attr,
  loads_library, closes_library, copies_string, calls_hooked, forks_app, forks_server,
  specializes_app, handle_event, is_compatible, on_unload, Reaches, stays, goes,
}
use zygisk_magisk_module.Boot.Callbacks.{
  HasCallbacks, HasCallbacks-same, IsSound, hook_entry-IsSound,
  post_native_bridge_load-HasCallbacks, restore_all-original,
}

-- A longer trace.
IsSound-mono :
    (env : Env) (g : Pointer HookContext) (t u : List Call)
    → (Occurs (original attr_destroy_fn) t → Occurs (original attr_destroy_fn) u)
    → IsSound env g t
    → IsSound env g u
IsSound-mono env nullptr t u longer sound = tt
IsSound-mono env dangling t u longer sound = longer sound
IsSound-mono env (live h) t u longer sound = sound

IsSound-later :
    (env : Env) (w v : World)
    → v.g_hook ≡ w.g_hook
    → (Occurs (original attr_destroy_fn) w.trace → Occurs (original attr_destroy_fn) v.trace)
    → IsSound env w.g_hook w.trace
    → IsSound env v.g_hook v.trace
IsSound-later env w v same longer sound =
    IsSound-mono env v.g_hook w.trace v.trace longer
      (subst (λ g. IsSound env g w.trace) (sym same) sound)

IsSound-done :
    (env : Env) (x v : World)
    → some x ≡ some v
    → IsSound env x.g_hook x.trace
    → IsSound env v.g_hook v.trace
IsSound-done env x v e = subst (λ y. IsSound env y.g_hook y.trace) (some-injective x v e)

zygisk_disconnect-Grows :
    (w : World)
    → let v = zygisk_disconnect w in
      (v.g_hook ≡ w.g_hook)
      × (Occurs (original attr_destroy_fn) w.trace → Occurs (original attr_destroy_fn) v.trace)
unfolding zygisk_disconnect
zygisk_disconnect-Grows w = (ground arith, λ h. ground arith)

lib_call-original :
    (env : Env) (c : LibCall) (w : World)
    → Occurs (original attr_destroy_fn) w.trace
    → Occurs (original attr_destroy_fn) (lib_call env c w).trace
unfolding lib_call new_fork new_unshare revert_unmount new_setcontext new_log_close
lib_call-original env forks w h = ground arith
lib_call-original env closes_log w h = ground arith
lib_call-original env sets_context w h = ground arith
lib_call-original env copies w h = ground arith
lib_call-original env closes w h = ground arith
lib_call-original env (unshares newns) w h = ground arith

new_attr_destroy-ends :
    (env : Env) (w v : World)
    → new_attr_destroy env w ≡ some v
    → ((v.g_hook ≡ w.g_hook) ⊎ (v.g_hook ≡ dangling)) × Occurs (original attr_destroy_fn) v.trace
unfolding new_attr_destroy restore_plt_hook
new_attr_destroy-ends env w v done = elim (Pointer-cases w.g_hook) [
  | inl (inl null) ↦ ground arith
  | inl (inr gone) ↦ ground arith
  | inr (h, up) ↦
      let u = emit (original attr_destroy_fn) w in
      ground (arith, restore_all-original env h.plt_backup u (inl refl))
]

new_dlclose-IsSound :
    (env : Env) (handle : ℕ) (w : World) (r : ℤ × World)
    → IsSound env w.g_hook w.trace
    → new_dlclose env handle w ≡ some r
    → IsSound env r.1.g_hook r.1.trace
unfolding new_dlclose
new_dlclose-IsSound env handle w r sound done = elim (Pointer-cases w.g_hook) [
  | inl none_live ↦ absurd (ground arith)
  | inr (h, up) ↦
      let (h', t) = post_native_bridge_load env handle h w.trace in
      let loaded : World = record w { g_hook = live h'; trace = t } in
      let has : HasCallbacks env h = subst (λ g. IsSound env g w.trace) up sound in
      let has' = post_native_bridge_load-HasCallbacks env handle h w.trace has in
      elim (Bool-cases (h.self_handle == 0)) [
        | inl first ↦ IsSound-done env loaded r.1 (ground arith) has'
        | inr later ↦ IsSound-done env w r.1 (ground arith) sound
      ]
]

new_strdup-IsSound :
    (env : Env) (str : Text) (w v : World)
    → IsSound env w.g_hook w.trace
    → new_strdup env str w ≡ some v
    → IsSound env v.g_hook v.trace
unfolding new_strdup
new_strdup-IsSound env str w v sound done = elim (Bool-cases (eq_text zygote_init str)) [
  | inr other ↦ IsSound-later env w v (ground (arith, other)) (λ h. ground (arith, other)) sound
  | inl starts ↦ elim (Pointer-cases w.g_hook) [
    | inl none_live ↦ absurd (ground (arith, starts))
    | inr (h, up) ↦ elim (Option-cases (hook_zygote_jni env h w.trace)) [
      | inl bad ↦ absurd (ground (arith, starts, bad))
      | inr (r, hooked) ↦
          let x : World = record w { g_hook = live r.0; trace = original strdup_fn ∷ r.1 } in
          let has : HasCallbacks env h = subst (λ g. IsSound env g w.trace) up sound in
          let kept = (hook_zygote_jni-SameHook env h w.trace r hooked).1 in
          IsSound-done env x v (ground (arith, starts, hooked))
            (HasCallbacks-same env h r.0 kept has)
    ]
  ]
]

KeepsCallbacks-IsSound :
    (env : Env) (w v : World)
    → IsSound env w.g_hook w.trace
    → KeepsCallbacks w v
    → IsSound env v.g_hook v.trace
KeepsCallbacks-IsSound env w v sound (h, h', start, end, same) =
    subst (λ g. IsSound env g v.trace) (sym end)
      (HasCallbacks-same env h h' same (subst (λ g. IsSound env g w.trace) start sound))

handle_event-IsSound :
    (env : Env) (e : Event) (w v : World)
    → IsSound env w.g_hook w.trace
    → handle_event env e w ≡ some v
    → IsSound env v.g_hook v.trace
unfolding handle_event is_compatible on_unload
handle_event-IsSound env checks_compatible w v sound done =
    IsSound-done env (hook_entry env w) v done (hook_entry-IsSound env w)
handle_event-IsSound env unloads_bridge w v sound done =
    let (same, longer) = zygisk_disconnect-Grows w in
    IsSound-done env (zygisk_disconnect w) v done
      (IsSound-later env w (zygisk_disconnect w) same longer sound)
handle_event-IsSound env destroys_attr w v sound done =
    let (ends, called) = new_attr_destroy-ends env w v done in
    elim ends [
      | inl same ↦ IsSound-later env w v same (λ h. called) sound
      | inr gone ↦ subst (λ g. IsSound env g v.trace) (sym gone) called
    ]
handle_event-IsSound env (loads_library path) w v sound done = IsSound-done env w v done sound
handle_event-IsSound env (closes_library handle) w v sound done =
    elim (Option-cases (new_dlclose env handle w)) [
      | inl bad ↦ absurd (ground (arith, bad))
      | inr (r, closed) ↦
          IsSound-done env r.1 v (ground (arith, closed))
            (new_dlclose-IsSound env handle w r sound closed)
    ]
handle_event-IsSound env (copies_string str) w v sound done =
    new_strdup-IsSound env str w v sound done
handle_event-IsSound env (calls_hooked c) w v sound done =
    IsSound-done env (lib_call env c w) v done (
      IsSound-later env w (lib_call env c w) (lib_call-Same env c w).0.2 (lib_call-original env c w)
        sound)
handle_event-IsSound env (forks_app fd_max m j) w v sound done =
    elim (Option-cases (fork_app env fd_max m j w)) [
      | inl bad ↦ absurd (ground (arith, bad))
      | inr (r, forked) ↦ IsSound-done env r.1 v (ground (arith, forked)) (
          KeepsCallbacks-IsSound env w r.1 sound
            (fork_app-KeepsCallbacks env fd_max m j w r forked))
    ]
handle_event-IsSound env (forks_server fd_max m j) w v sound done =
    elim (Option-cases (fork_server env fd_max m j w)) [
      | inl bad ↦ absurd (ground (arith, bad))
      | inr (r, forked) ↦ IsSound-done env r.1 v (ground (arith, forked)) (
          KeepsCallbacks-IsSound env w r.1 sound
            (fork_server-KeepsCallbacks env fd_max m j w r forked))
    ]
handle_event-IsSound env (specializes_app fd_max m j) w v sound done =
    KeepsCallbacks-IsSound env w v sound (specialize_app-KeepsCallbacks env fd_max m j w v done)

IsSound-Reaches :
    (env : Env) (w v : World) → w.g_hook ≡ nullptr → Reaches env w v → IsSound env v.g_hook v.trace
IsSound-Reaches env w v fresh stays = subst (λ g. IsSound env g w.trace) (sym fresh) tt
IsSound-Reaches env w v fresh (goes {v = u} e before done) =
    handle_event-IsSound env e u v (IsSound-Reaches env w u fresh before) done

-- The data of libart.so stay where they are.
abbrev pub ArtStays : Env → Type 0
ArtStays env = (t u : List Call) → find_art_data (env.maps t) ≡ find_art_data (env.maps u)

-- The runtime callbacks are not set, or point into the data of libart.so as the maps show them now;
-- and `g_hook` dangles only after a call of the hook of `pthread_attr_destroy`.
abbrev pub IsSoundNow : Env → Pointer HookContext → List Call → Type 0
IsSoundNow env nullptr t = Unit {0}
IsSoundNow env dangling t = Occurs (original attr_destroy_fn) t
IsSoundNow env (live h) t =
    let (start, end) = find_art_data (env.maps t) in
    (h.runtime_callbacks ≡ 0) ⊎ ((start ≤ h.runtime_callbacks) × (h.runtime_callbacks < end))

now :
    (env : Env) (g : Pointer HookContext) (t : List Call)
    → ArtStays env
    → IsSound env g t
    → IsSoundNow env g t
now env nullptr t art sound = tt
now env dangling t art sound = sound
now env (live h) t art (inl unset) = inl unset
now env (live h) t art (inr (u, within)) = inr (
    subst (λ r. (r.0 ≤ h.runtime_callbacks) × (h.runtime_callbacks < r.1))
      {x = find_art_data (env.maps u)} (art u t) within)

-- In a process in which the data of libart.so stay where they are and the library has not been
-- started, whatever calls come of the native bridge's functions, of the hooked functions and of the
-- replacements of the JNI methods, the destructor of the context included, in any order: as long as
-- `g_hook` points to an object, the runtime callbacks in it are not set or point into the data of
-- libart.so; and `g_hook` dangles only after a call of the hook of `pthread_attr_destroy`.
pub Reaches-IsSound :
    (env : Env) (w v : World)
    → ArtStays env
    → w.g_hook ≡ nullptr
    → Reaches env w v
    → IsSoundNow env v.g_hook v.trace
Reaches-IsSound env w v art fresh run =
    now env v.g_hook v.trace art (IsSound-Reaches env w v fresh run)
