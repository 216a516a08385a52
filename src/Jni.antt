-- ===== src/Jni.antt =====
-- The hooking of JNI methods in src/libzygisk/src/hook.cpp: `register_jni_methods` and both
-- functions `hook_jni_methods`; Zygote has what concerns the class of that name. The functions take
-- and return the trace, since they change nothing else but the tables. The pair of
-- `getNativeMethodCount` and `getNativeMethods` is one question.
pub mod Frame
pub mod Zygote
pub mod Vm
pub mod Registration
pub mod RoundTrip
pub mod Replace
pub mod ByName
pub mod Listing
pub mod Restore
use zygisk_magisk_module.Prelude.{
  ℕ, zero, suc, ℤ, pos, eq_ℤ, ◌+◌, Bool, true, false, not, ◌&&◌, ◌||◌, Option, none, some, List, [],
  ◌∷◌, ◌==◌, map, if◌then◌else◌,
}
use zygisk_magisk_module.World.{
  Text, text, NativeMethod, Call, find_class, get_native_methods, register_natives, exception_clear,
  find_vms, dlopen_path, find_vms_in, get_created_vms, get_env, scan_maps, dlclose, MapInfo, Env,
  HookContext, Pointer, nullptr, dangling, live, World,
}
use zygisk_magisk_module.Plt.{eq_text, ends_with}

-- `method.fnPtr = nullptr`
abbrev pub cleared_method : NativeMethod → NativeMethod
cleared_method m = record m { fn = 0 }

-- A method with a null function is left out; one that cannot be registered gets one.
pub register_jni_methods : Env → ℕ → List NativeMethod → List Call → List NativeMethod × List Call
register_jni_methods env clazz [] t = ([], t)
register_jni_methods env clazz (m ∷ ms) t =
    let ok = env.registers_natives t clazz m in
    let asked = register_natives clazz m ∷ t in
    let (rest, u) =
      register_jni_methods env clazz ms
        (if m.fn == 0 then t else if ok then asked else exception_clear ∷ asked) in
    ((if m.fn == 0 then m else if ok then m else cleared_method m) ∷ rest, u)

-- The innermost loop of `hook_jni_methods`: the function that a method had before.
unfoldable pub old_fn_of : Text → Text → List NativeMethod → Option ℕ
old_fn_of name signature [] = none
old_fn_of name signature (o ∷ os) =
    let rest = old_fn_of name signature os in
    if eq_text o.name name && eq_text o.signature signature then some o.fn else rest

-- The two inner loops: the first method that now has the function `fn` and had one before.
pub replaced_fn : List NativeMethod → List NativeMethod → ℕ → Option ℕ
replaced_fn [] old_methods fn = none
replaced_fn (n ∷ ns) old_methods fn =
    let rest = replaced_fn ns old_methods fn in
    if n.fn == fn
    then (elim (old_fn_of n.name n.signature old_methods) [ none ↦ rest | some old ↦ some old ])
    else rest

-- The outer loop, with the count: a method whose old function is not found keeps its own.
pub back_up : List NativeMethod → List NativeMethod → List NativeMethod → ℕ × List NativeMethod
back_up new_methods old_methods [] = (0, [])
back_up new_methods old_methods (m ∷ ms) =
    let (count, rest) = back_up new_methods old_methods ms in
    if m.fn == 0 then (count, m ∷ rest) else (elim (replaced_fn new_methods old_methods m.fn) [
      | none ↦ (count, m ∷ rest)
      | some old ↦ (suc count, record m { fn = old } ∷ rest)
    ])

-- `hook_jni_methods` of a class: the count, the methods with the old functions, and the trace.
pub hook_class_methods : Env → ℕ → List NativeMethod → List Call → ℕ × List NativeMethod × List Call
hook_class_methods env clazz methods t =
    let old_methods = env.native_methods t clazz in
    let (registered, u) = register_jni_methods env clazz methods (get_native_methods clazz ∷ t) in
    let new_methods = env.native_methods u clazz in
    let (count, backed_up) = back_up new_methods old_methods registered in
    (count, backed_up, get_native_methods clazz ∷ u)

-- `hook_jni_methods` of a class name, as a module calls it by `hookJniNativeMethods`; the Boolean
-- says whether the JNIEnv is not null.
pub hook_jni_methods :
    Env
    → HookContext
    → Bool
    → Option Text
    → List NativeMethod
    → List Call
    → List NativeMethod × List Call
hook_jni_methods env h given none methods t = (map cleared_method methods, t)
hook_jni_methods env h given (some name) methods t =
    let clazz = env.address t (find_class name) in
    if (h.runtime_callbacks == 0) || not given
    then (map cleared_method methods, t)
    else if clazz == 0
    then (map cleared_method methods, find_class name ∷ t)
    else (let (count, backed_up, u) = hook_class_methods env clazz methods (find_class name ∷ t) in
        (backed_up, u))
