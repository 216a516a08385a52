-- ===== src/Jni/Registration.antt =====
-- What `register_jni_methods` makes of a table and of the class.
use zygisk_magisk_module.Prelude.{
  ℕ, ◌≡◌, refl, sym, ap, ◌∙◌, inl, inr, List, [], ◌∷◌, ◌==◌, ==_cases, Bool-cases, map,
  if◌then◌else◌,
}
use zygisk_magisk_module.World.{NativeMethod, Call, register_natives, exception_clear, Env}
use zygisk_magisk_module.Jni.{register_jni_methods, cleared_method}
use zygisk_magisk_module.Jni.Vm.{Shorty, resolved, writes, write_one, write_all, IsVm}

-- A method of the table after it.
abbrev pub settled : Shorty → NativeMethod → NativeMethod
settled shorty m = if m.fn == 0 then m else if resolved shorty m then m else cleared_method m

write_one-null :
    (shorty : Shorty) (m : NativeMethod) (os : List NativeMethod)
    → m.fn ≡ 0
    → map (write_one shorty m) os ≡ os
unfolding write_one writes
write_one-null shorty m [] e = refl
write_one-null shorty m (o ∷ os) e = rw e (ap (λ x. o ∷ x) (write_one-null shorty m os e))

map-write_all :
    (shorty : Shorty) (m : NativeMethod) (ms os : List NativeMethod)
    → map (write_all shorty ms) (map (write_one shorty m) os) ≡ map (write_all shorty (m ∷ ms)) os
unfolding write_all
map-write_all shorty m ms [] = refl
map-write_all shorty m ms (o ∷ os) =
    ap (λ x. write_all shorty (m ∷ ms) o ∷ x) (map-write_all shorty m ms os)

pub map-write_nothing :
    (shorty : Shorty) (os : List NativeMethod) → map (write_all shorty []) os ≡ os
unfolding write_all
map-write_nothing shorty [] = refl
map-write_nothing shorty (o ∷ os) = ap (λ x. o ∷ x) (map-write_nothing shorty os)

-- One method: the table's entry, and the listing after it.
register_one :
    (env : Env) (clazz : ℕ) (shorty : Shorty) (vm : IsVm env clazz shorty) (m : NativeMethod)
    (t : List Call)
    → let ok = env.registers_natives t clazz m in
      let asked = register_natives clazz m ∷ t in
      let u = if m.fn == 0 then t else if ok then asked else exception_clear ∷ asked in
      ((if m.fn == 0 then m else if ok then m else cleared_method m) ≡ settled shorty m)
      × (env.native_methods u clazz ≡ map (write_one shorty m) (env.native_methods t clazz))
register_one env clazz shorty vm m t = elim (==_cases m.fn 0) [
  | inl (test, null) ↦
      rw test (refl, sym (write_one-null shorty m (env.native_methods t clazz) null))
  | inr (test, given) ↦
      let asked = register_natives clazz m ∷ t in
      let done = vm.registered t m given in
      rw test (
        rw (vm.resolves t m) (elim (Bool-cases (resolved shorty m)) [
          | inl ok ↦ rw ok (refl, done)
          | inr bad ↦ rw bad (refl, vm.cleared asked ∙ done)
        ]))
]

pub register_jni_methods_lem :
    (env : Env) (clazz : ℕ) (shorty : Shorty) (vm : IsVm env clazz shorty) (ms : List NativeMethod)
    (t : List Call)
    → let r = register_jni_methods env clazz ms t in
      (r.0 ≡ map (settled shorty) ms)
      × (env.native_methods r.1 clazz ≡ map (write_all shorty ms) (env.native_methods t clazz))
unfolding register_jni_methods
register_jni_methods_lem env clazz shorty vm [] t = (refl, sym (map-write_nothing shorty _))
register_jni_methods_lem env clazz shorty vm (m ∷ ms) t =
    let ok = env.registers_natives t clazz m in
    let asked = register_natives clazz m ∷ t in
    let u = if m.fn == 0 then t else if ok then asked else exception_clear ∷ asked in
    let (entry, listing) = register_one env clazz shorty vm m t in
    let (table, listing') = register_jni_methods_lem env clazz shorty vm ms u in
    (
      rw entry (ap (λ x. settled shorty m ∷ x) table),
      listing' ∙ ap (λ x. map (write_all shorty ms) x) listing ∙ map-write_all shorty m ms _,
    )
