-- ===== src/Examples/Startup.antt =====
-- The start of the library and the hooks of the JNI methods, on the concrete phone.
use zygisk_magisk_module.Boot.{
  new_dlclose, new_strdup, zygote_init, checks_compatible, closes_library, copies_string,
  handle_event, is_compatible, Reaches, stays, goes,
}
use zygisk_magisk_module.Boot.Laws.{IsSoundNow, Reaches-IsSound}
use zygisk_magisk_module.Boot.Progress.{started, loaded, startup-Reaches}
use zygisk_magisk_module.Boot.Start.{FindsVm, LacksJni, new_strdup-none_iff}
use zygisk_magisk_module.Bridge.{
  find_art_data, candidates, unwind_get_region_start, post_native_bridge_load,
}
use zygisk_magisk_module.Bridge.Search.{Bridged, post_native_bridge_load_lem, Shows}
use zygisk_magisk_module.Examples.{
  bridge_frame, phone, our_address, hook, zygote_shorty, state, zygote_natives, old_signature,
  our_table, new_signature,
}
use zygisk_magisk_module.Hook.{hook_entry}
use zygisk_magisk_module.Jni.{hook_jni_methods, old_fn_of}
use zygisk_magisk_module.Jni.ByName.{IsRefused, IsHooked, hook_jni_methods_lem}
use zygisk_magisk_module.Jni.Vm.{Shorty, IsVm, IsClear, IsOwn}
use zygisk_magisk_module.Jni.Zygote.{
  replace_in_zygote, get_created_vms_fn, zygote_class, fork_app_name,
}
use zygisk_magisk_module.Plt.{eq_text, ends_with}
use zygisk_magisk_module.Plt.Selection.{eq_text_iff}
use zygisk_magisk_module.Prelude.{
  ℕ, ◌≡◌, refl, ◌⊎◌, inr, Bool, true, false, ◌==◌, some, List, ◌∷◌, arith, All, ◌↔◌, Option, none,
  [], if◌then◌else◌, pos, minus_one, replicate,
}
use zygisk_magisk_module.World.{
  Text, NativeMethod, Call, find_class, Env, HookContext, original, strdup_fn, nullptr, live, World,
  text,
}

abbrev our_owner : ℕ → Text × Text
our_owner fn = if fn == 202 then (fork_app_name, new_signature) else (fork_app_name, old_signature)

zygote-IsVm : IsVm (phone (pos 0) 1) 5 zygote_shorty
zygote-IsVm = record {
  resolves = λ t m. refl;
  registered = λ t m given. refl;
  asked = λ t. refl;
  cleared = λ t. refl;
}

zygote-IsClear : IsClear zygote_shorty zygote_natives
unfolding old_fn_of eq_text
zygote-IsClear = record {
  one_signature = λ name signature signature' s known known'.
      ground (arith, eq_text_iff signature new_signature, eq_text_iff signature' new_signature);
  entries = ((refl, λ e. ground arith), ((refl, λ e. ground arith), tt));
}

our_table-IsOwn : All (λ m. (m.fn ≡ 0) ⊎ IsOwn our_address our_owner zygote_natives m) our_table
unfolding eq_text
our_table-IsOwn = (
  inr (record {
    its_address = refl;
    its_owner = refl;
    is_fresh = (λ e. ground arith, (λ e. ground arith, tt));
  }),
  (
    inr (record {
      its_address = refl;
      its_owner = refl;
      is_fresh = (λ e. ground arith, (λ e. ground arith, tt));
    }),
    tt,
  ),
)

-- Before the library is started.
abbrev fresh : World
fresh = record (state minus_one 0 []) { g_hook = nullptr; g_ctx = false }

abbrev or_fresh : Option World → World
or_fresh none = fresh
or_fresh (some w) = w

abbrev after_start : World
after_start = or_fresh (handle_event (phone (pos 0) 1) checks_compatible fresh)

abbrev bridged : World
bridged = or_fresh (handle_event (phone (pos 0) 1) (closes_library 0xa000) after_start)

two_events : Reaches (phone (pos 0) 1) fresh bridged
unfolding handle_event is_compatible hook_entry new_dlclose
two_events = goes (closes_library 0xa000) (goes checks_compatible stays refl) refl

bridge_frame-Shows :
    Shows (phone (pos 0) 1) (started (phone (pos 0) 1) fresh).1.trace bridge_frame 0x3008
unfolding ends_with eq_text find_art_data candidates unwind_get_region_start
bridge_frame-Shows = (
  ([], [], refl, tt, refl),
  λ e. ground arith,
  ([], replicate 9 0x3008, refl, tt, refl),
  λ e. ground arith,
)

phone-FindsVm : FindsVm (phone (pos 0) 1) (loaded (phone (pos 0) 1) 0xa000 fresh).1
unfolding get_created_vms_fn
phone-FindsVm = (λ e. ground arith, refl, λ e. ground arith)

not-LacksJni : LacksJni (phone (pos 0) 1) (loaded (phone (pos 0) 1) 0xa000 fresh).1 → ⊥
unfolding get_created_vms_fn
not-LacksJni e = ground arith

hook_jni_methods_lem_example :
    let env : Env = phone (pos 0) 1 in
    let h : HookContext = hook in
    let given : Bool = true in
    let name : Text = zygote_class in
    let shorty : Shorty = zygote_shorty in
    let ms : List NativeMethod = our_table in
    let t : List Call = [] in
    let clazz = env.address t (find_class name) in
    let r = hook_jni_methods env h given (some name) ms t in
    IsRefused h given clazz ms t name r
    ⊎ IsHooked env h given clazz shorty ms (find_class name ∷ t) r
hook_jni_methods_lem_example =
    hook_jni_methods_lem (phone (pos 0) 1) hook true zygote_class zygote_shorty our_address
      our_owner our_table ([]) (zygote-IsVm) (zygote-IsClear) (our_table-IsOwn)

post_native_bridge_load_lem_example :
    let env : Env = phone (pos 0) 1 in
    let handle : ℕ = 0xa000 in
    let h : HookContext = hook in
    let t : List Call = [] in
    let r = post_native_bridge_load env handle h t in (r.0.self_handle ≡ handle) × Bridged env h t r
post_native_bridge_load_lem_example = post_native_bridge_load_lem (phone (pos 0) 1) 0xa000 hook ([])

Reaches-IsSound_example :
    let env : Env = phone (pos 0) 1 in let v : World = bridged in IsSoundNow env v.g_hook v.trace
Reaches-IsSound_example =
    Reaches-IsSound (phone (pos 0) 1) fresh bridged (λ t u. refl) refl two_events

startup-Reaches_example :
    let env : Env = phone (pos 0) 1 in
    let w : World = fresh in
    let handle : ℕ = 0xa000 in
    let v : ℕ = 0x3008 in
    (w1 : World) × (w2 : World) × (u : World) × (h : HookContext) × (t : List Call) × (handle_event
        env checks_compatible w
      ≡ some w1)
    × (handle_event env (closes_library handle) w1 ≡ some w2)
    × (w2.g_hook ≡ live h)
    × (handle_event env (copies_string (text "com.android.internal.os.ZygoteInit")) w2 ≡ some u)
    × (h.self_handle ≡ handle)
    × (h.runtime_callbacks ≡ v)
    × (u.g_hook ≡ live (replace_in_zygote env h t).0)
    × (u.trace ≡ original strdup_fn ∷ (replace_in_zygote env h t).1)
startup-Reaches_example =
    startup-Reaches (phone (pos 0) 1) fresh 0xa000 bridge_frame 0x3008 (bridge_frame-Shows)
      (phone-FindsVm) (not-LacksJni)

new_strdup-none_iff_example :
    let env : Env = phone (pos 0) 1 in
    let str : Text = zygote_init in
    let w : World = state (pos 0) 1 [] in
    let h : HookContext = hook in
    (new_strdup env str w ≡ none) ↔ (
      (str ≡ zygote_init)
      × FindsVm env w.trace
      × (LacksJni env w.trace ⊎ (h.runtime_callbacks ≡ 0)))
new_strdup-none_iff_example =
    new_strdup-none_iff (phone (pos 0) 1) zygote_init (state (pos 0) 1 []) hook refl
