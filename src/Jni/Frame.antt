-- ===== src/Jni/Frame.antt =====
-- What the hooking of JNI methods does not do: the trace grows by calls of the Java VM only.
use zygisk_magisk_module.Prelude.{
  ℕ, refl, Bool, true, false, Option, none, some, List, [], ◌∷◌, ◌==◌, ◌||◌, not, if◌then◌else◌,
  Bool-cases, inl, inr,
}
use zygisk_magisk_module.World.{
  Text, NativeMethod, Call, find_class, get_native_methods, register_natives, exception_clear, Env,
  HookContext,
}
use zygisk_magisk_module.Trace.{Grows, Grows-refl, Grows-one, Grows-trans}
use zygisk_magisk_module.Jni.{register_jni_methods, hook_class_methods, hook_jni_methods}
use zygisk_magisk_module.Jni.Zygote.{restore_zygote_hook, zygote_class}

-- The calls that `register_jni_methods` and the two `hook_jni_methods` make.
unfoldable pub is_jni : Call → Bool
is_jni (find_class name) = true
is_jni (get_native_methods clazz) = true
is_jni (register_natives clazz m) = true
is_jni exception_clear = true
is_jni c = false

Grows-if :
    (b : Bool) {t u v : List Call}
    → Grows is_jni t u
    → Grows is_jni t v
    → Grows is_jni t (if b then u else v)
Grows-if true p q = p
Grows-if false p q = q

pub register_jni_methods-Grows :
    (env : Env) (clazz : ℕ) (ms : List NativeMethod) (t : List Call)
    → Grows is_jni t (register_jni_methods env clazz ms t).1
unfolding register_jni_methods is_jni
register_jni_methods-Grows env clazz [] t = Grows-refl is_jni t
register_jni_methods-Grows env clazz (m ∷ ms) t =
    let asked = register_natives clazz m ∷ t in
    let once = Grows-one is_jni (register_natives clazz m) t refl in
    Grows-trans is_jni t _ _
      (Grows-if (m.fn == 0) (Grows-refl is_jni t) (
        Grows-if (env.registers_natives t clazz m) once (
          Grows-trans is_jni t asked (exception_clear ∷ asked) once
            (Grows-one is_jni exception_clear asked refl))))
      (register_jni_methods-Grows env clazz ms _)

hook_class_methods-Grows :
    (env : Env) (clazz : ℕ) (ms : List NativeMethod) (t : List Call)
    → Grows is_jni t (hook_class_methods env clazz ms t).2
unfolding hook_class_methods is_jni
hook_class_methods-Grows env clazz ms t =
    let asked = get_native_methods clazz ∷ t in
    Grows-trans is_jni t asked _ (Grows-one is_jni (get_native_methods clazz) t refl) (
      Grows-trans is_jni asked _ _ (register_jni_methods-Grows env clazz ms asked)
        (Grows-one is_jni (get_native_methods clazz) _ refl))

pub hook_jni_methods-Grows :
    (env : Env) (h : HookContext) (given : Bool) (clz : Option Text) (ms : List NativeMethod)
    (t : List Call)
    → Grows is_jni t (hook_jni_methods env h given clz ms t).1
unfolding hook_jni_methods is_jni
hook_jni_methods-Grows env h given none ms t = Grows-refl is_jni t
hook_jni_methods-Grows env h given (some name) ms t =
    let found = find_class name ∷ t in
    let clazz = env.address t (find_class name) in
    elim (Bool-cases ((h.runtime_callbacks == 0) || not given)) [
      | inl none_given ↦ rw none_given (Grows-refl is_jni t)
      | inr all_given ↦ rw all_given (elim (Bool-cases (clazz == 0)) [
        | inl missing ↦ rw missing (Grows-one is_jni (find_class name) t refl)
        | inr there ↦ rw there (
            Grows-trans is_jni t found _ (Grows-one is_jni (find_class name) t refl)
              (hook_class_methods-Grows env clazz ms found))
      ])
    ]

pub restore_zygote_hook-Grows :
    (env : Env) (h : HookContext) (t : List Call) → Grows is_jni t (restore_zygote_hook env h t).1
unfolding restore_zygote_hook is_jni
restore_zygote_hook-Grows env h t =
    let t0 = find_class zygote_class ∷ t in
    let clazz = env.address t (find_class zygote_class) in
    let (apps, t1) = register_jni_methods env clazz h.fork_app_methods t0 in
    let (specialized, t2) = register_jni_methods env clazz h.specialize_app_methods t1 in
    Grows-trans is_jni t t0 _ (Grows-one is_jni (find_class zygote_class) t refl) (
      Grows-trans is_jni t0 t1 _ (register_jni_methods-Grows env clazz h.fork_app_methods t0) (
        Grows-trans is_jni t1 t2 _
          (register_jni_methods-Grows env clazz h.specialize_app_methods t1)
          (register_jni_methods-Grows env clazz h.fork_server_methods t2)))
