-- ===== src/Jni/RoundTrip.antt =====
-- What `hook_jni_methods` backs up, and that registering the backup takes the hooks back.
pub mod Writes
pub mod Backup
pub mod Table
use zygisk_magisk_module.Prelude.{
  ℕ, suc, ◌≡◌, ◌≢◌, refl, sym, ap, subst, ◌∙◌, ◌↔◌, ◌⊎◌, inl, inr, Bool, true, false, not, ◌&&◌,
  Option, none, some, List, [], ◌∷◌, ◌==◌, ==_iff, ==_cases, Bool-cases, Option-cases, map, arith,
  if◌then◌else◌, All, All-mono, map-undone, Any, Any-mono, Any-All, Occurs, Occurs-All, All-Occurs,
}
use zygisk_magisk_module.World.{Text, NativeMethod, Call, get_native_methods, Env}
use zygisk_magisk_module.Jni.{register_jni_methods, old_fn_of, hook_class_methods}
use zygisk_magisk_module.Jni.Vm.{
  Shorty, has_key, resolved, writes, write_one, write_all, IsVm, IsEntry, IsClear, IsOwn,
}
use zygisk_magisk_module.Jni.Registration.{settled, register_jni_methods_lem}
use zygisk_magisk_module.Jni.RoundTrip.Writes.{
  has_key_iff, Names, writes→Names, Names→writes, write_all_lem, write_all-keeps,
}
use zygisk_magisk_module.Jni.RoundTrip.Backup.{old_of, backed_up, hooked_count}
use zygisk_magisk_module.Jni.RoundTrip.Table.{back_up_lem}

-- With a table whose functions tell its methods apart and are new to the class, which lists no two
-- methods alike: each entry whose method the class lists gets the old function of that method, one
-- that the class does not know gets none, the count is the number of the former, and the class
-- lists the table's functions for these methods and the old ones for all others.
pub hook_class_methods_lem :
    (env : Env) (clazz : ℕ) (shorty : Shorty) (address : Text → Text → ℕ) (owner : ℕ → Text × Text)
    (ms : List NativeMethod) (t : List Call)
    → IsVm env clazz shorty
    → IsClear shorty (env.native_methods t clazz)
    → All (λ m. (m.fn ≡ 0) ⊎ IsOwn address owner (env.native_methods t clazz) m) ms
    → let listed = env.native_methods t clazz in
      let r = hook_class_methods env clazz ms t in
      (r.0 ≡ hooked_count shorty listed ms)
      × (r.1 ≡ map (backed_up shorty listed) ms)
      × (env.native_methods r.2 clazz ≡ map (write_all shorty ms) listed)
unfolding hook_class_methods
hook_class_methods_lem env clazz shorty address owner ms t vm clear own =
    let listed = env.native_methods t clazz in
    let start = get_native_methods clazz ∷ t in
    let u = (register_jni_methods env clazz ms start).1 in
    let (table, listing) = register_jni_methods_lem env clazz shorty vm ms start in
    let listing' = listing ∙ ap (map (write_all shorty ms)) (vm.asked t) in
    let backup = back_up_lem shorty address owner listed ms clear own ms (All-Occurs ms) in
    (
      rw table (rw listing' (ap (λ x. x.0) backup)),
      rw table (rw listing' (ap (λ x. x.1) backup)),
      vm.asked u ∙ listing',
    )

backed_up-null :
    (shorty : Shorty) (listed : List NativeMethod) (k : NativeMethod)
    → k.fn ≡ 0
    → (backed_up shorty listed k).fn ≡ 0
unfolding backed_up
backed_up-null shorty listed k null = ground (arith, ==_iff k.fn 0)

pub old_of-Names :
    (shorty : Shorty) (listed : List NativeMethod) (k o : NativeMethod)
    → IsEntry listed o
    → Names shorty k o
    → old_of shorty listed k ≡ some o.fn
old_of-Names shorty listed k o (found, has) (given, (s, known, name, signature)) =
    let test : (k.fn == 0) ≡ false = ground (arith, given) in
    let found' : old_fn_of k.name s listed ≡ some o.fn =
      ap (λ n. old_fn_of n s listed) (sym name)
      ∙ ap (λ q. old_fn_of o.name q listed) (sym signature)
      ∙ found in
    rw test (rw known found')

backed_up-Names :
    (shorty : Shorty) (listed : List NativeMethod) (k o : NativeMethod)
    → IsEntry listed o
    → Names shorty k o
    → backed_up shorty listed k ≡ record k { fn = o.fn }
unfolding backed_up
backed_up-Names shorty listed k o entry names =
    ap (λ x. elim x [ none ↦ settled shorty k | some v ↦ record k { fn = v } ])
      (old_of-Names shorty listed k o entry names)

pub backed_up-keeps :
    (shorty : Shorty) (listed : List NativeMethod) (k : NativeMethod)
    → ((backed_up shorty listed k).name ≡ k.name)
      × ((backed_up shorty listed k).signature ≡ k.signature)
unfolding backed_up
backed_up-keeps shorty listed k = ground arith

write_one-at :
    (shorty : Shorty) (m o : NativeMethod) (x : ℕ) (b : Bool)
    → writes shorty m o ≡ b
    → write_one shorty m (record o { fn = x }) ≡ record o { fn = if b then m.fn else x }
unfolding write_one writes
write_one-at shorty m o x b e = ap (λ c. record o { fn = if c then m.fn else x }) e

backed_up-misses :
    (shorty : Shorty) (listed : List NativeMethod) (k o : NativeMethod)
    → writes shorty k o ≡ false
    → writes shorty (backed_up shorty listed k) o ≡ false
backed_up-misses shorty listed k o fails =
    elim (Bool-cases (writes shorty (backed_up shorty listed k) o)) [
      | inr missed ↦ missed
      | inl wrote ↦
          let (given, (s, known, name, signature)) =
            writes→Names shorty (backed_up shorty listed k) o wrote in
          let (same_name, same_signature) = backed_up-keeps shorty listed k in
          (elim (==_cases k.fn 0) [
            | inl (test, null) ↦ absurd (given (backed_up-null shorty listed k null))
            | inr (test, given') ↦
                let known' : shorty k.name k.signature ≡ some s = cc in
                let names : Names shorty k o = (given', (s, known', name ∙ same_name, signature)) in
                let holds = Names→writes shorty k o names in absurd (cc)
          ])
    ]

-- The backup of a method is written where the method was, and brings the old function back.
write_one-backed_up :
    (shorty : Shorty) (listed : List NativeMethod) (k o : NativeMethod) (x : ℕ)
    → IsEntry listed o
    → write_one shorty (backed_up shorty listed k) (record o { fn = x })
      ≡ record o { fn = if writes shorty k o then o.fn else x }
write_one-backed_up shorty listed k o x entry = elim (Bool-cases (writes shorty k o)) [
  | inl holds ↦
      let old : NativeMethod = record k { fn = o.fn } in
      let (given, names) = writes→Names shorty k o holds in
      let wrote : writes shorty old o ≡ true = Names→writes shorty old o (entry.1, names) in
      ap (λ m. write_one shorty m (record o { fn = x }))
        (backed_up-Names shorty listed k o entry (given, names))
      ∙ write_one-at shorty old o x true wrote
      ∙ ap (λ b. record o { fn = if b then o.fn else x }) (sym holds)
  | inr fails ↦
      write_one-at shorty (backed_up shorty listed k) o x false
        (backed_up-misses shorty listed k o fails)
      ∙ ap (λ b. record o { fn = if b then o.fn else x }) (sym fails)
]

write_all-backed_up :
    (shorty : Shorty) (listed : List NativeMethod) (o : NativeMethod) (ks : List NativeMethod)
    (x : ℕ)
    → IsEntry listed o
    → (x ≡ o.fn) ⊎ Any (λ k. writes shorty k o ≡ true) ks
    → write_all shorty (map (backed_up shorty listed) ks) (record o { fn = x }) ≡ o
unfolding write_all
write_all-backed_up shorty listed o [] x entry (inl same) = ap (λ y. record o { fn = y }) same
write_all-backed_up shorty listed o [] x entry (inr any) = elim any [ ]
write_all-backed_up shorty listed o (k ∷ ks) x entry why =
    let rest : NativeMethod → NativeMethod = write_all shorty (map (backed_up shorty listed) ks) in
    let at : Bool → NativeMethod = λ b. rest (record o { fn = if b then o.fn else x }) in
    ap rest (write_one-backed_up shorty listed k o x entry)
    ∙ (elim (Bool-cases (writes shorty k o)) [
      | inl holds ↦ ap at holds ∙ write_all-backed_up shorty listed o ks o.fn entry (inl refl)
      | inr fails ↦
          ap at fails
          ∙ write_all-backed_up shorty listed o ks x entry (elim why [
            | inl same ↦ inl same
            | inr (inl here) ↦ absurd (cc)
            | inr (inr there) ↦ inr there
          ])
    ])

pub put_back_entry :
    (shorty : Shorty) (listed ms : List NativeMethod) (o : NativeMethod)
    → IsEntry listed o
    → write_all shorty (map (backed_up shorty listed) ms) (write_all shorty ms o) ≡ o
put_back_entry shorty listed ms o entry =
    ap (write_all shorty (map (backed_up shorty listed) ms)) (write_all-keeps shorty ms o)
    ∙ write_all-backed_up shorty listed o ms (write_all shorty ms o).fn entry
        (elim (write_all_lem shorty (λ m. Occurs m ms) ms o (All-Occurs ms)) [
          | inl (kept, missed) ↦ inl kept
          | inr wrote ↦ inr (Any-mono _ _ (λ m h. h.1) ms wrote)
        ])

register-undoes :
    (env : Env) (clazz : ℕ) (shorty : Shorty) (address : Text → Text → ℕ) (owner : ℕ → Text × Text)
    (ms : List NativeMethod) (t v : List Call)
    → IsVm env clazz shorty
    → IsClear shorty (env.native_methods t clazz)
    → All (λ m. (m.fn ≡ 0) ⊎ IsOwn address owner (env.native_methods t clazz) m) ms
    → let (count, backup, u) = hook_class_methods env clazz ms t in
      env.native_methods v clazz ≡ env.native_methods u clazz
      → env.native_methods (register_jni_methods env clazz backup v).1 clazz
        ≡ env.native_methods t clazz
register-undoes env clazz shorty address owner ms t v vm clear own same =
    let listed = env.native_methods t clazz in
    let (count, backup, u) = hook_class_methods env clazz ms t in
    let (counted, table, listing) =
      hook_class_methods_lem env clazz shorty address owner ms t vm clear own in
    (register_jni_methods_lem env clazz shorty vm backup v).1
    ∙ ap (λ x. map (write_all shorty backup) x) (same ∙ listing)
    ∙ ap (λ x. map (write_all shorty x) (map (write_all shorty ms) listed)) table
    ∙ map-undone _ _ listed
        (All-mono _ _ (λ o entry. put_back_entry shorty listed ms o entry) listed clear.entries)

-- To register what `hook_jni_methods` gives back brings the class to the state that it had before:
-- each of its native methods has its old function again. The table's functions tell its methods
-- apart and are new to the class, and the class lists no two methods alike.
pub hook_class_methods-register :
    (env : Env) (clazz : ℕ) (shorty : Shorty) (address : Text → Text → ℕ) (owner : ℕ → Text × Text)
    (ms : List NativeMethod) (t : List Call)
    → IsVm env clazz shorty
    → IsClear shorty (env.native_methods t clazz)
    → All (λ m. (m.fn ≡ 0) ⊎ IsOwn address owner (env.native_methods t clazz) m) ms
    → let (count, backup, u) = hook_class_methods env clazz ms t in
      env.native_methods (register_jni_methods env clazz backup u).1 clazz
      ≡ env.native_methods t clazz
hook_class_methods-register env clazz shorty address owner ms t vm clear own =
    register-undoes env clazz shorty address owner ms t _ vm clear own refl

-- To hook with the table that `hook_jni_methods` has given back, as `hook_zygote_jni` does at the
-- second overload of a method, takes the hooks out of the class.
hook_class_methods_twice :
    (env : Env) (clazz : ℕ) (shorty : Shorty) (address : Text → Text → ℕ) (owner : ℕ → Text × Text)
    (ms : List NativeMethod) (t : List Call)
    → IsVm env clazz shorty
    → IsClear shorty (env.native_methods t clazz)
    → All (λ m. (m.fn ≡ 0) ⊎ IsOwn address owner (env.native_methods t clazz) m) ms
    → let (count, backup, u) = hook_class_methods env clazz ms t in
      let (count', backup', v) = hook_class_methods env clazz backup u in
      env.native_methods v clazz ≡ env.native_methods t clazz
unfolding hook_class_methods
hook_class_methods_twice env clazz shorty address owner ms t vm clear own =
    let (count, backup, u) = hook_class_methods env clazz ms t in
    vm.asked (register_jni_methods env clazz backup (get_native_methods clazz ∷ u)).1
    ∙ register-undoes env clazz shorty address owner ms t (get_native_methods clazz ∷ u) vm clear
        own (vm.asked u)
