-- ===== src/Jni/Restore/Chain.antt =====
-- Three tables that are registered one after the other, each for a name of its own.
use zygisk_magisk_module.Prelude.{
  ℕ, ◌≡◌, ◌≢◌, refl, sym, ap, ◌∙◌, ◌⊎◌, inl, inr, Bool, true, false, List, [], ◌∷◌, map,
  if◌then◌else◌,
}
use zygisk_magisk_module.World.{Text, NativeMethod, Call, Env}
use zygisk_magisk_module.Jni.{cleared_method}
use zygisk_magisk_module.Jni.Vm.{Shorty, writes, write_one, write_all, IsVm}
use zygisk_magisk_module.Jni.Zygote.{fork_app_name, specialize_app_name, fork_server_name, put_back}
use zygisk_magisk_module.Jni.Registration.{register_jni_methods_lem, map-write_nothing}
use zygisk_magisk_module.Jni.RoundTrip.Writes.{write_all-keeps}
use zygisk_magisk_module.Jni.Listing.{write_all-other}
use zygisk_magisk_module.Jni.Listing.Hooked.{IsNamed, IsNamed-IsOther}
use zygisk_magisk_module.Jni.Restore.Tables.{
  eq_text_cases, fork_app≢specialize_app, fork_app≢fork_server, specialize_app≢fork_server,
}

-- What an entry becomes of the three tables.
abbrev pub write_three :
    Shorty → List NativeMethod → List NativeMethod → List NativeMethod → NativeMethod → NativeMethod
write_three shorty apps specialized servers o =
    write_all shorty servers (write_all shorty specialized (write_all shorty apps o))

write_named :
    (shorty : Shorty) (ms : List NativeMethod) (name : Text) (o : NativeMethod)
    → IsNamed name ms
    → o.name ≢ name
    → write_all shorty ms o ≡ o
write_named shorty ms name o named other =
    write_all-other shorty ms o (IsNamed-IsOther name o.name ms (λ e. other (sym e)) named)

-- An entry that a table has been written to keeps its name.
write_named-after :
    (shorty : Shorty) (ms ks : List NativeMethod) (name : Text) (o : NativeMethod)
    → IsNamed name ms
    → o.name ≢ name
    → write_all shorty ms (write_all shorty ks o) ≡ write_all shorty ks o
write_named-after shorty ms ks name o named other =
    write_named shorty ms name (write_all shorty ks o) named
      (λ e. other (sym (ap (λ x. x.name) (write_all-keeps shorty ks o)) ∙ e))

module _ (shorty : Shorty) (apps specialized servers : List NativeMethod)
    (named : IsNamed fork_app_name apps) (named' : IsNamed specialize_app_name specialized)
    (named'' : IsNamed fork_server_name servers) where
  skip_app :
      (o : NativeMethod)
      → o.name ≢ fork_app_name
      → write_three shorty apps specialized servers o
        ≡ write_all shorty servers (write_all shorty specialized o)
  skip_app o other =
      ap (λ x. write_all shorty servers (write_all shorty specialized x))
        (write_named shorty apps fork_app_name o named other)

  skip_specialize :
      (o : NativeMethod)
      → o.name ≢ specialize_app_name
      → write_all shorty servers (write_all shorty specialized o) ≡ write_all shorty servers o
  skip_specialize o other =
      ap (write_all shorty servers)
        (write_named shorty specialized specialize_app_name o named' other)

  pub write_three-fork_app :
      (o : NativeMethod)
      → o.name ≡ fork_app_name
      → write_three shorty apps specialized servers o ≡ write_all shorty apps o
  write_three-fork_app o same =
      ap (write_all shorty servers) (
        write_named-after shorty specialized apps specialize_app_name o named'
          (λ e. fork_app≢specialize_app (sym same ∙ e)))
      ∙ write_named-after shorty servers apps fork_server_name o named''
          (λ e. fork_app≢fork_server (sym same ∙ e))

  pub write_three-specialize_app :
      (o : NativeMethod)
      → o.name ≡ specialize_app_name
      → write_three shorty apps specialized servers o ≡ write_all shorty specialized o
  write_three-specialize_app o same =
      skip_app o (λ e. fork_app≢specialize_app (sym e ∙ same))
      ∙ write_named-after shorty servers specialized fork_server_name o named''
          (λ e. specialize_app≢fork_server (sym same ∙ e))

  pub write_three-fork_server :
      (o : NativeMethod)
      → o.name ≡ fork_server_name
      → write_three shorty apps specialized servers o ≡ write_all shorty servers o
  write_three-fork_server o same =
      skip_app o (λ e. fork_app≢fork_server (sym e ∙ same))
      ∙ skip_specialize o (λ e. specialize_app≢fork_server (sym e ∙ same))

  pub write_three-other :
      (o : NativeMethod)
      → o.name ≢ fork_app_name
      → o.name ≢ specialize_app_name
      → o.name ≢ fork_server_name
      → write_three shorty apps specialized servers o ≡ o
  write_three-other o no_app no_specialize no_server =
      skip_app o no_app
      ∙ skip_specialize o no_specialize
      ∙ write_named shorty servers fork_server_name o named'' no_server

  -- Only the table of the entry's name changes it.
  pub write_three_cases :
      (o : NativeMethod)
      → let three = write_three shorty apps specialized servers o in
        ((o.name ≡ fork_app_name) × (three ≡ write_all shorty apps o))
        ⊎ (((o.name ≡ specialize_app_name) × (three ≡ write_all shorty specialized o))
            ⊎ (((o.name ≡ fork_server_name) × (three ≡ write_all shorty servers o))
                ⊎ ((o.name ≢ fork_app_name)
                    × (o.name ≢ specialize_app_name)
                    × (o.name ≢ fork_server_name)
                    × (three ≡ o))))
  write_three_cases o = elim (eq_text_cases o.name fork_app_name) [
    | inl (test, same) ↦ inl (same, write_three-fork_app o same)
    | inr (test, other) ↦ inr (elim (eq_text_cases o.name specialize_app_name) [
      | inl (test', same) ↦ inl (same, write_three-specialize_app o same)
      | inr (test', other') ↦ inr (elim (eq_text_cases o.name fork_server_name) [
        | inl (test'', same) ↦ inl (same, write_three-fork_server o same)
        | inr (test'', other'') ↦
            inr (other, other', other'', write_three-other o other other' other'')
      ])
    ])
  ]

-- Three registrations.
pub map-write_three :
    (shorty : Shorty) (apps specialized servers os : List NativeMethod)
    → map
        (write_all shorty servers)
        (map (write_all shorty specialized) (map (write_all shorty apps) os))
      ≡ map (write_three shorty apps specialized servers) os
map-write_three shorty apps specialized servers [] = refl
map-write_three shorty apps specialized servers (o ∷ os) =
    ap (λ xs. write_three shorty apps specialized servers o ∷ xs)
      (map-write_three shorty apps specialized servers os)

-- A cleared table writes nothing.
pub write_all-cleared :
    (shorty : Shorty) (ms : List NativeMethod) (o : NativeMethod)
    → write_all shorty (map cleared_method ms) o ≡ o
unfolding write_all write_one writes
write_all-cleared shorty [] o = refl
write_all-cleared shorty (m ∷ ms) o = write_all-cleared shorty ms o

pub put_back_lem :
    (env : Env) (clazz : ℕ) (shorty : Shorty) (replaced : Bool) (ms : List NativeMethod)
    (t : List Call)
    → IsVm env clazz shorty
    → env.native_methods (put_back env clazz replaced ms t) clazz
      ≡ map (write_all shorty (if replaced then ms else [])) (env.native_methods t clazz)
unfolding put_back
put_back_lem env clazz shorty true ms t vm = (register_jni_methods_lem env clazz shorty vm ms t).1
put_back_lem env clazz shorty false ms t vm =
    sym (map-write_nothing shorty (env.native_methods t clazz))
