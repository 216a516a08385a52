-- ===== src/Jni/Listing/Hooked.antt =====
-- What `hook_jni_methods` makes of a table, where tables of other names were registered before.
use zygisk_magisk_module.Prelude.{
  ℕ, suc, ◌≡◌, ◌≢◌, refl, sym, ap, subst, ◌∙◌, inl, inr, false, Option, none, some, List, [], ◌∷◌,
  ◌++◌, Bool-cases, Option-cases, map, arith, All, All-mono,
}
use zygisk_magisk_module.World.{Text, NativeMethod, Call, Env}
use zygisk_magisk_module.Jni.{hook_class_methods}
use zygisk_magisk_module.Jni.Vm.{Shorty, writes, write_all, IsVm, IsEntry, IsClear}
use zygisk_magisk_module.Jni.Registration.{settled}
use zygisk_magisk_module.Jni.RoundTrip.Writes.{writes→Names}
use zygisk_magisk_module.Jni.RoundTrip.Backup.{old_of, backed_up, hooked_count}
use zygisk_magisk_module.Jni.RoundTrip.{old_of-Names, hook_class_methods_lem}
use zygisk_magisk_module.Jni.Listing.{
  IsOurs, write_all-missed, map-write_all-append, old_fn_of-other, IsClear-written, IsOurs-written,
}

-- No method has this name.
abbrev pub IsOther : Text → List NativeMethod → Type 0
IsOther name ms = All (λ m. m.name ≢ name) ms

abbrev pub IsNamed : Text → List NativeMethod → Type 0
IsNamed name ms = All (λ m. m.name ≡ name) ms

pub IsNamed-IsOther :
    (name other : Text) (ms : List NativeMethod) → name ≢ other → IsNamed name ms → IsOther other ms
IsNamed-IsOther name other ms differ named =
    All-mono _ _ (λ m e same. differ (sym e ∙ same)) ms named

old_of-other :
    (shorty : Shorty) (listed ws : List NativeMethod) (k : NativeMethod)
    → IsOther k.name ws
    → old_of shorty (map (write_all shorty ws) listed) k ≡ old_of shorty listed k
old_of-other shorty listed ws k others = elim (Option-cases (shorty k.name k.signature)) [
  | inl unknown ↦ rw unknown refl
  | inr (s, known) ↦ rw known (rw (old_fn_of-other shorty ws listed k.name s others) refl)
]

backed_up-old_of :
    (shorty : Shorty) (listed listed' : List NativeMethod) (k : NativeMethod)
    → old_of shorty listed k ≡ old_of shorty listed' k
    → backed_up shorty listed k ≡ backed_up shorty listed' k
unfolding backed_up
backed_up-old_of shorty listed listed' k same =
    ap (λ o. elim o [ none ↦ settled shorty k | some old ↦ record k { fn = old } ]) same

-- The backup and the count are those of the class before.
back_up-other :
    (shorty : Shorty) (listed ws ms : List NativeMethod) (name : Text)
    → IsOther name ws
    → IsNamed name ms
    → (hooked_count shorty (map (write_all shorty ws) listed) ms ≡ hooked_count shorty listed ms)
      × (map (backed_up shorty (map (write_all shorty ws) listed)) ms
          ≡ map (backed_up shorty listed) ms)
unfolding hooked_count
back_up-other shorty listed ws [] name others named = (refl, refl)
back_up-other shorty listed ws (k ∷ ks) name others (its_name, named) =
    let others' : IsOther k.name ws = subst (λ n. IsOther n ws) (sym its_name) others in
    let same = old_of-other shorty listed ws k others' in
    let (count, table) = back_up-other shorty listed ws ks name others named in
    (
      ap
            (λ q. elim q [
              | none ↦ hooked_count shorty (map (write_all shorty ws) listed) ks
              | some old ↦ suc (hooked_count shorty (map (write_all shorty ws) listed) ks)
            ])
            same
          ∙ ap (λ n. elim (old_of shorty listed k) [ none ↦ n | some old ↦ suc n ]) count,
      ap (λ m. m ∷ map (backed_up shorty (map (write_all shorty ws) listed)) ks)
            (backed_up-old_of shorty (map (write_all shorty ws) listed) listed k same)
          ∙ ap (λ ms. backed_up shorty listed k ∷ ms) table,
    )

counts_none :
    (o : Option ℕ) (rest : ℕ)
    → (elim o [ none ↦ rest | some old ↦ suc rest ]) ≡ 0
    → (o ≡ none) × (rest ≡ 0)
counts_none none rest h = (refl, h)
counts_none (some old) rest h = absurd (omega arith)

unhooked-missed :
    (shorty : Shorty) (listed ms : List NativeMethod) (o : NativeMethod)
    → IsEntry listed o
    → hooked_count shorty listed ms ≡ 0
    → All (λ m. writes shorty m o ≡ false) ms
unfolding hooked_count
unhooked-missed shorty listed [] o entry none_hooked = tt
unhooked-missed shorty listed (m ∷ ms) o entry none_hooked =
    let (unknown, rest) = counts_none (old_of shorty listed m) _ none_hooked in
    (
      elim (Bool-cases (writes shorty m o)) [
        | inl wrote ↦
            let found = old_of-Names shorty listed m o entry (writes→Names shorty m o wrote) in
            absurd (cc)
        | inr missed ↦ missed
      ],
      unhooked-missed shorty listed ms o entry rest,
    )

-- If no method had a function, the table changes no entry.
pub write_all-unhooked :
    (shorty : Shorty) (listed ms : List NativeMethod) (o : NativeMethod)
    → IsEntry listed o
    → hooked_count shorty listed ms ≡ 0
    → write_all shorty ms o ≡ o
write_all-unhooked shorty listed ms o entry none_hooked =
    write_all-missed shorty ms o (unhooked-missed shorty listed ms o entry none_hooked)

IsOurs-all :
    (shorty : Shorty) (address : Text → Text → ℕ) (owner : ℕ → Text × Text) (name : Text)
    (listed ws ms : List NativeMethod)
    → All (IsOurs address owner listed) ws
    → IsOther name ws
    → All (IsOurs address owner listed) ms
    → IsNamed name ms
    → All (IsOurs address owner (map (write_all shorty ws) listed)) ms
IsOurs-all shorty address owner name listed ws [] ours others ours' named = tt
IsOurs-all shorty address owner name listed ws (m ∷ ms) ours others (its_own, ours')
      (its_name, named) =
    (
      IsOurs-written shorty address owner listed ws m ours
          (subst (λ n. IsOther n ws) (sym its_name) others) its_own,
      IsOurs-all shorty address owner name listed ws ms ours others ours' named,
    )

-- The count, the backup and the listing after the next table.
pub hook_class_methods-written :
    (env : Env) (clazz : ℕ) (shorty : Shorty) (address : Text → Text → ℕ) (owner : ℕ → Text × Text)
    (name : Text) (listed ws ms : List NativeMethod) (t : List Call)
    → IsVm env clazz shorty
    → IsClear shorty listed
    → env.native_methods t clazz ≡ map (write_all shorty ws) listed
    → All (IsOurs address owner listed) ws
    → All (IsOurs address owner listed) ms
    → IsOther name ws
    → IsNamed name ms
    → let r = hook_class_methods env clazz ms t in
      (r.0 ≡ hooked_count shorty listed ms)
      × (r.1 ≡ map (backed_up shorty listed) ms)
      × (env.native_methods r.2 clazz ≡ map (write_all shorty (ws ++ ms)) listed)
hook_class_methods-written env clazz shorty address owner name listed ws ms t vm clear start ours
      ours' others named =
    let now = env.native_methods t clazz in
    let clear' : IsClear shorty now =
      subst (IsClear shorty) (sym start)
        (IsClear-written shorty address owner listed ws ours clear) in
    let ours'' : All (IsOurs address owner now) ms =
      subst (λ l. All (IsOurs address owner l) ms) (sym start)
        (IsOurs-all shorty address owner name listed ws ms ours others ours' named) in
    let (counted, table, listing) =
      hook_class_methods_lem env clazz shorty address owner ms t vm clear' ours'' in
    let (count, backup) = back_up-other shorty listed ws ms name others named in
    (
      counted ∙ ap (λ l. hooked_count shorty l ms) start ∙ count,
      table ∙ ap (λ l. map (backed_up shorty l) ms) start ∙ backup,
      listing ∙ ap (map (write_all shorty ms)) start ∙ map-write_all-append shorty ws ms listed,
    )
