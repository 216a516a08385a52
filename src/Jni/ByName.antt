-- ===== src/Jni/ByName.antt =====
-- What a module gets by `hookJniNativeMethods`, on every branch.
use zygisk_magisk_module.Prelude.{
  ℕ, ◌≡◌, ◌≢◌, refl, ◌⊎◌, inl, inr, Bool, true, false, not, ◌||◌, ◌==◌, ==_cases, Bool-cases, some,
  List, ◌∷◌, map, arith, All,
}
use zygisk_magisk_module.World.{Text, NativeMethod, Call, find_class, Env, HookContext}
use zygisk_magisk_module.Jni.{cleared_method, hook_jni_methods}
use zygisk_magisk_module.Jni.Vm.{Shorty, write_all, IsVm, IsClear, IsOwn}
use zygisk_magisk_module.Jni.RoundTrip.Backup.{backed_up}
use zygisk_magisk_module.Jni.RoundTrip.{hook_class_methods_lem}

-- Something is missing: every method has a null function, and nothing was registered.
abbrev pub IsRefused :
    HookContext
    → Bool
    → ℕ
    → List NativeMethod
    → List Call
    → Text
    → List NativeMethod × List Call
    → Type 0
IsRefused h given clazz ms t name (table, u) =
    ((h.runtime_callbacks ≡ 0) ⊎ ((given ≡ false) ⊎ (clazz ≡ 0)))
    × (table ≡ map cleared_method ms)
    × ((u ≡ t) ⊎ (u ≡ find_class name ∷ t))

-- The methods are hooked, with their old functions for the caller.
abbrev pub IsHooked :
    Env
    → HookContext
    → Bool
    → ℕ
    → Shorty
    → List NativeMethod
    → List Call
    → List NativeMethod × List Call
    → Type 0
IsHooked env h given clazz shorty ms found (table, u) =
    let listed = env.native_methods found clazz in
    (h.runtime_callbacks ≢ 0)
    × (given ≡ true)
    × (clazz ≢ 0)
    × (table ≡ map (backed_up shorty listed) ms)
    × (env.native_methods u clazz ≡ map (write_all shorty ms) listed)

-- For a class in which no two native methods have the same name and the same shorty, and each has a
-- function, in a Java VM that lists and registers methods as Jni.Vm states, and a module's methods
-- whose functions are null, or tell the methods apart and are new to the class: if the
-- runtime callbacks, the JNIEnv or the class is missing, the module gets null functions and nothing
-- is registered; otherwise it gets the old functions of the methods that the class lists, and the
-- class lists the module's functions for them and the old ones for all others.
pub hook_jni_methods_lem :
    (env : Env) (h : HookContext) (given : Bool) (name : Text) (shorty : Shorty)
    (address : Text → Text → ℕ) (owner : ℕ → Text × Text) (ms : List NativeMethod) (t : List Call)
    → IsVm env (env.address t (find_class name)) shorty
    → IsClear shorty (env.native_methods (find_class name ∷ t) (env.address t (find_class name)))
    → All
        (λ m.
          (m.fn ≡ 0)
          ⊎ IsOwn address owner
              (env.native_methods (find_class name ∷ t) (env.address t (find_class name)))
              m)
        ms
    → let clazz = env.address t (find_class name) in
      let r = hook_jni_methods env h given (some name) ms t in
      IsRefused h given clazz ms t name r
      ⊎ IsHooked env h given clazz shorty ms (find_class name ∷ t) r
unfolding hook_jni_methods
hook_jni_methods_lem env h given name shorty address owner ms t vm clear own =
    let clazz = env.address t (find_class name) in
    let found = find_class name ∷ t in
    elim (Bool-cases ((h.runtime_callbacks == 0) || not given)) [
      | inl lacking ↦ rw lacking (inl (ground arith, refl, inl refl))
      | inr having ↦ elim (==_cases clazz 0) [
        | inl (test, unknown) ↦ rw having (rw test (inl (inr (inr unknown), refl, inr refl)))
        | inr (test, known) ↦
            let (count, table, listing) =
              hook_class_methods_lem env clazz shorty address owner ms found vm clear own in
            rw having (rw test (inr (ground arith, ground arith, known, table, listing)))
      ]
    ]
