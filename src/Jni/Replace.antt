-- ===== src/Jni/Replace.antt =====
-- What `hook_zygote_jni` leaves alone.
use zygisk_magisk_module.Prelude.{
  ℕ, ◌≡◌, refl, ◌∙◌, Bool, true, false, some, List, [], ◌∷◌, arith, if◌then◌else◌,
}
use zygisk_magisk_module.World.{
  Call, get_created_vms, get_env, find_class, get_native_methods, NativeMethod, Env, HookContext,
}
use zygisk_magisk_module.Jni.Zygote.{
  get_created_vms_fn, Replacing, start_replacing, zygote_class, replace_method, replace_methods,
  finish_replacing, replace_in_zygote, hook_zygote_jni,
}

-- The fields that are no tables.
abbrev pub SameHook : HookContext → HookContext → Type 0
SameHook g h =
    (h.plt_backup ≡ g.plt_backup)
    × (h.runtime_callbacks ≡ g.runtime_callbacks)
    × (h.self_handle ≡ g.self_handle)
    × (h.should_unmap ≡ g.should_unmap)

SameHook-trans : (f g h : HookContext) → SameHook f g → SameHook g h → SameHook f h
SameHook-trans f g h p q = (q.0 ∙ p.0, q.1 ∙ p.1, q.2 ∙ p.2, q.3 ∙ p.3)

replace_method-SameHook :
    (env : Env) (clazz : ℕ) (m : NativeMethod) (r : Replacing)
    → SameHook r.hook (replace_method env clazz m r).hook
unfolding replace_method
replace_method-SameHook env clazz m r = ground arith

SameHook-if :
    (h : HookContext) (b : Bool) (q r : Replacing)
    → SameHook h q.hook
    → SameHook h r.hook
    → SameHook h (if b then q else r).hook
SameHook-if h true q r same same' = same
SameHook-if h false q r same same' = same'

replace_methods-SameHook :
    (env : Env) (clazz : ℕ) (ms : List NativeMethod) (r : Replacing)
    → SameHook r.hook (replace_methods env clazz ms r).hook
unfolding replace_methods
replace_methods-SameHook env clazz [] r = (refl, refl, refl, refl)
replace_methods-SameHook env clazz (m ∷ ms) r =
    let next = replace_method env clazz m r in
    let first = replace_method-SameHook env clazz m r in
    SameHook-if r.hook next.missing next (replace_methods env clazz ms next) first (
      SameHook-trans r.hook next.hook (replace_methods env clazz ms next).hook first
        (replace_methods-SameHook env clazz ms next))

finish_replacing-SameHook :
    (env : Env) (clazz : ℕ) (r : Replacing) → SameHook r.hook (finish_replacing env clazz r).0
unfolding finish_replacing
finish_replacing-SameHook env clazz r = ground arith

replace_in_zygote-SameHook :
    (env : Env) (h : HookContext) (t : List Call) → SameHook h (replace_in_zygote env h t).0
unfolding replace_in_zygote
replace_in_zygote-SameHook env h t =
    let clazz = env.address t (find_class zygote_class) in
    let found = find_class zygote_class ∷ t in
    let start = start_replacing h (get_native_methods clazz ∷ found) in
    let ms = env.native_methods found clazz in
    let r = replace_methods env clazz ms start in
    SameHook-trans h r.hook (finish_replacing env clazz r).0
      (replace_methods-SameHook env clazz ms start) (finish_replacing-SameHook env clazz r)

pub hook_zygote_jni-SameHook :
    (env : Env) (h : HookContext) (t : List Call) (r : HookContext × List Call)
    → hook_zygote_jni env h t ≡ some r
    → SameHook h r.0
unfolding hook_zygote_jni
hook_zygote_jni-SameHook env h t r done =
    let (fn, u) = get_created_vms_fn env t in
    let asked = get_created_vms fn ∷ u in
    let vm = env.address u (get_created_vms fn) in
    ground (arith, replace_in_zygote-SameHook env h (get_env vm ∷ asked))
