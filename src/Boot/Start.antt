-- ===== src/Boot/Start.antt =====
-- When the hook of `strdup`, by which the library starts its work, is defined.
use zygisk_magisk_module.Prelude.{pos, eq_ℤ_iff, ◌≡◌, ◌≢◌, ◌↔◌, ◌⊎◌, none, some, List, ◌∷◌, arith}
use zygisk_magisk_module.World.{Text, Call, get_created_vms, get_env, Env, live, HookContext, World}
use zygisk_magisk_module.Plt.Selection.{eq_text_iff}
use zygisk_magisk_module.Jni.Zygote.{replace_in_zygote, hook_zygote_jni, get_created_vms_fn}
use zygisk_magisk_module.Boot.{new_strdup, zygote_init}

-- `JNI_GetCreatedJavaVMs` is found, and gives a VM.
abbrev pub FindsVm : Env → List Call → Type 0
FindsVm env t =
    let (fn, u) = get_created_vms_fn env t in
    (fn ≢ 0) × (env.int u (get_created_vms fn) ≡ pos 0) × (env.address u (get_created_vms fn) ≢ 0)

-- `vm->GetEnv` gives no JNIEnv.
abbrev pub LacksJni : Env → List Call → Type 0
LacksJni env t =
    let (fn, u) = get_created_vms_fn env t in
    let vm = env.address u (get_created_vms fn) in
    env.address (get_created_vms fn ∷ u) (get_env vm) ≡ 0

hook_zygote_jni-none_iff :
    (env : Env) (h : HookContext) (t : List Call)
    → (hook_zygote_jni env h t ≡ none)
      ↔ (FindsVm env t × (LacksJni env t ⊎ (h.runtime_callbacks ≡ 0)))
unfolding hook_zygote_jni
hook_zygote_jni-none_iff env h t =
    let (fn, u) = get_created_vms_fn env t in
    ground (arith, eq_ℤ_iff (env.int u (get_created_vms fn)) (pos 0))

-- While `g_hook` points to an object, the hook of `strdup` is undefined exactly for the name of
-- the class ZygoteInit in a process with a Java VM, if the VM gives no JNIEnv or the runtime
-- callbacks were not found: the code goes on with the null pointer.
pub new_strdup-none_iff :
    (env : Env) (str : Text) (w : World) (h : HookContext)
    → w.g_hook ≡ live h
    → (new_strdup env str w ≡ none) ↔ (
        (str ≡ zygote_init)
        × FindsVm env w.trace
        × (LacksJni env w.trace ⊎ (h.runtime_callbacks ≡ 0)))
unfolding new_strdup
new_strdup-none_iff env str w h up =
    ground (arith, eq_text_iff zygote_init str, hook_zygote_jni-none_iff env h w.trace)

pub hook_zygote_jni-replaces :
    (env : Env) (h : HookContext) (t : List Call)
    → FindsVm env t
    → (LacksJni env t → ⊥)
    → h.runtime_callbacks ≢ 0
    → (s : List Call) × (hook_zygote_jni env h t ≡ some (replace_in_zygote env h s))
unfolding hook_zygote_jni
hook_zygote_jni-replaces env h t finds given has =
    let (fn, u) = get_created_vms_fn env t in
    let asked = get_created_vms fn ∷ u in
    let vm = env.address u (get_created_vms fn) in
    (get_env vm ∷ asked, ground (arith, eq_ℤ_iff (env.int u (get_created_vms fn)) (pos 0)))
