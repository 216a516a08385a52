-- ===== src/Jni/Zygote.antt =====
-- `hook_zygote_jni` and `restore_zygote_hook` of src/libzygisk/src/hook.cpp: the search for the Java VM,
-- and the replacement of the methods of the class Zygote.
use zygisk_magisk_module.Prelude.{
  ℕ, pos, eq_ℤ, Bool, true, false, not, ◌||◌, Option, none, some, List, [], ◌∷◌, ◌==◌, map,
  if◌then◌else◌,
}
use zygisk_magisk_module.World.{
  Text, text, NativeMethod, Call, find_class, get_native_methods, find_vms, dlopen_path,
  find_vms_in, get_created_vms, get_env, scan_maps, dlclose, MapInfo, Env, HookContext,
}
use zygisk_magisk_module.Plt.{eq_text, ends_with}
use zygisk_magisk_module.Jni.{cleared_method, hook_class_methods, register_jni_methods}

abbrev pub zygote_class : Text
zygote_class = text "com/android/internal/os/Zygote"

abbrev pub fork_app_name : Text
fork_app_name = text "nativeForkAndSpecialize"

abbrev pub specialize_app_name : Text
specialize_app_name = text "nativeSpecializeAppProcess"

abbrev pub fork_server_name : Text
fork_server_name = text "nativeForkSystemServer"

-- `restore_zygote_hook`
unfoldable pub restore_zygote_hook : Env → HookContext → List Call → HookContext × List Call
restore_zygote_hook env h t =
    let clazz = env.address t (find_class zygote_class) in
    let (fork_app, t1) =
      register_jni_methods env clazz h.fork_app_methods (find_class zygote_class ∷ t) in
    let (specialize_app, t2) = register_jni_methods env clazz h.specialize_app_methods t1 in
    let (fork_server, t3) = register_jni_methods env clazz h.fork_server_methods t2 in
    (
      record h {
        fork_app_methods = fork_app;
        specialize_app_methods = specialize_app;
        fork_server_methods = fork_server;
      },
      t3,
    )

-- The search for `JNI_GetCreatedJavaVMs` in libnativehelper.so, of which the first map counts.
unfoldable pub find_vms_in_maps : Env → List MapInfo → List Call → ℕ × List Call
find_vms_in_maps env [] t = (0, t)
find_vms_in_maps env (m ∷ ms) t =
    let rest = find_vms_in_maps env ms t in
    let handle = env.address t (dlopen_path m.path) in
    let opened = dlopen_path m.path ∷ t in
    if not (ends_with m.path (text "/libnativehelper.so"))
    then rest
    else if handle == 0
    then (0, opened)
    else (env.address opened (find_vms_in handle), dlclose handle ∷ find_vms_in handle ∷ opened)

unfoldable pub get_created_vms_fn : Env → List Call → ℕ × List Call
get_created_vms_fn env t =
    let found = env.address t find_vms in
    if found == 0
    then find_vms_in_maps env (env.maps (find_vms ∷ t)) (scan_maps ∷ find_vms ∷ t)
    else (found, find_vms ∷ t)

-- The variables of the loop of `hook_zygote_jni`: the tables, which of them have replaced a method,
-- and whether a method could not be replaced.
pub record Replacing : Type 0 where
  pub hook : HookContext
  pub replaced_fork_app : Bool
  pub replaced_specialize_app : Bool
  pub replaced_fork_server : Bool
  pub missing : Bool
  pub trace : List Call

-- The body of the loop, at a method of the class.
unfoldable pub replace_method : Env → ℕ → NativeMethod → Replacing → Replacing
replace_method env clazz m r =
    let (apps, fork_app, t1) = hook_class_methods env clazz r.hook.fork_app_methods r.trace in
    let (specialized, specialize_app, t2) =
      hook_class_methods env clazz r.hook.specialize_app_methods r.trace in
    let (servers, fork_server, t3) =
      hook_class_methods env clazz r.hook.fork_server_methods r.trace in
    if eq_text m.name fork_app_name
    then record r {
      hook = record r.hook { fork_app_methods = fork_app };
      replaced_fork_app = if apps == 0 then r.replaced_fork_app else true;
      missing = apps == 0;
      trace = t1;
    }
    else if eq_text m.name specialize_app_name
    then record r {
      hook = record r.hook { specialize_app_methods = specialize_app };
      replaced_specialize_app = if specialized == 0 then r.replaced_specialize_app else true;
      missing = specialized == 0;
      trace = t2;
    }
    else if eq_text m.name fork_server_name
    then record r {
      hook = record r.hook { fork_server_methods = fork_server };
      replaced_fork_server = if servers == 0 then r.replaced_fork_server else true;
      missing = servers == 0;
      trace = t3;
    }
    else r

unfoldable pub replace_methods : Env → ℕ → List NativeMethod → Replacing → Replacing
replace_methods env clazz [] r = r
replace_methods env clazz (m ∷ ms) r =
    let next = replace_method env clazz m r in
    let rest = replace_methods env clazz ms next in if next.missing then next else rest

-- `if (replaced) register_jni_methods(env, clazz, methods)`; what becomes of the table is not
-- looked at, since it is cleared next.
unfoldable pub put_back : Env → ℕ → Bool → List NativeMethod → List Call → List Call
put_back env clazz replaced methods t =
    if replaced then (register_jni_methods env clazz methods t).1 else t

-- After the loop.
unfoldable pub finish_replacing : Env → ℕ → Replacing → HookContext × List Call
finish_replacing env clazz r =
    let t1 = put_back env clazz r.replaced_fork_app r.hook.fork_app_methods r.trace in
    let t2 = put_back env clazz r.replaced_specialize_app r.hook.specialize_app_methods t1 in
    let t3 = put_back env clazz r.replaced_fork_server r.hook.fork_server_methods t2 in
    if r.missing
    then (
      record r.hook {
        fork_app_methods = map cleared_method r.hook.fork_app_methods;
        specialize_app_methods = map cleared_method r.hook.specialize_app_methods;
        fork_server_methods = map cleared_method r.hook.fork_server_methods;
      },
      t3,
    )
    else (r.hook, r.trace)

abbrev pub start_replacing : HookContext → List Call → Replacing
start_replacing h t = record {
  hook = h;
  replaced_fork_app = false;
  replaced_specialize_app = false;
  replaced_fork_server = false;
  missing = false;
  trace = t;
}

-- `hook_zygote_jni` from the JNIEnv on.
unfoldable pub replace_in_zygote : Env → HookContext → List Call → HookContext × List Call
replace_in_zygote env h t =
    let clazz = env.address t (find_class zygote_class) in
    let found = find_class zygote_class ∷ t in
    finish_replacing env clazz (
      replace_methods env clazz (env.native_methods found clazz)
        (start_replacing h (get_native_methods clazz ∷ found)))

-- `none` is the use of a null JNIEnv, or of null runtime callbacks.
unfoldable pub hook_zygote_jni : Env → HookContext → List Call → Option (HookContext × List Call)
hook_zygote_jni env h t =
    let (fn, u) = get_created_vms_fn env t in
    let vm = env.address u (get_created_vms fn) in
    let asked = get_created_vms fn ∷ u in
    let given = env.address asked (get_env vm) in
    if fn == 0
    then some (h, u)
    else if not (eq_ℤ (env.int u (get_created_vms fn)) (pos 0)) || (vm == 0)
    then some (h, asked)
    else if (given == 0) || (h.runtime_callbacks == 0)
    then none
    else some (replace_in_zygote env h (get_env vm ∷ asked))
