-- ===== src/Jni/Restore/Visit.antt =====
-- A table of `hook_zygote_jni` at the visit to the method that it is for, and when it is put back.
use zygisk_magisk_module.Prelude.{
  ℕ, ◌≡◌, ◌≢◌, refl, sym, ap, subst, ◌∙◌, ◌⊎◌, inl, inr, Bool, true, false, not, List, [], ◌∷◌,
  ◌++◌, ◌==◌, ==_cases, map, arith, if◌then◌else◌, All, All-mono, Occurs, Occurs-All,
}
use zygisk_magisk_module.World.{Text, NativeMethod, Call, Env}
use zygisk_magisk_module.Jni.{cleared_method, hook_class_methods}
use zygisk_magisk_module.Jni.Vm.{Shorty, write_all, IsVm, IsEntry, IsClear}
use zygisk_magisk_module.Jni.RoundTrip.Backup.{backed_up, hooked_count}
use zygisk_magisk_module.Jni.RoundTrip.{backed_up-keeps, put_back_entry}
use zygisk_magisk_module.Jni.Listing.{IsOurs, write_all-other, write_all-append}
use zygisk_magisk_module.Jni.Listing.Hooked.{
  IsOther, IsNamed, write_all-unhooked, hook_class_methods-written,
}
use zygisk_magisk_module.Jni.Restore.Slots.{IsSingle, IsTable, Standing, waits, hooked}

told_of :
    (count count' : ℕ) (replaced : Bool)
    → count ≡ count'
    → replaced ≡ false
    → (if count == 0 then replaced else true) ≡ not (count' == 0)
told_of count count' replaced same untold = ground arith

counts_of : (count count' : ℕ) → count ≡ count' → ((count == 0) ≡ true) ⊎ (count' ≢ 0)
counts_of count count' same = elim (==_cases count 0) [
  | inl (test, zeroed) ↦ inl test
  | inr (test, some_hooked) ↦ inr (λ zeroed. some_hooked (same ∙ zeroed))
]

-- The table is registered, and what it gives back stands in its place.
pub Standing-hook :
    (env : Env) (clazz : ℕ) (shorty : Shorty) (address : Text → Text → ℕ) (owner : ℕ → Text × Text)
    (listed ws ms : List NativeMethod) (m : NativeMethod) (name : Text)
    (before now : List NativeMethod) (replaced : Bool) (t : List Call)
    → IsVm env clazz shorty
    → IsClear shorty listed
    → All (IsOurs address owner listed) ws
    → env.native_methods t clazz ≡ map (write_all shorty ws) listed
    → IsTable address owner listed name before
    → IsSingle name (m ∷ ms)
    → m.name ≡ name
    → Standing shorty listed ws (m ∷ ms) false name before now replaced
    → let r = hook_class_methods env clazz now t in
      (r.0 ≡ hooked_count shorty listed before)
      × (env.native_methods r.2 clazz ≡ map (write_all shorty (ws ++ before)) listed)
      × Standing shorty listed
          (ws ++ before)
          ms
          (r.0 == 0)
          name
          before
          r.1
          (if r.0 == 0 then replaced else true)
Standing-hook env clazz shorty address owner listed ws ms m name before now replaced t vm clear ours
      start table single its_name (hooked same told wrote counts others) =
    absurd (others.0 its_name)
Standing-hook env clazz shorty address owner listed ws ms m name before now replaced t vm clear ours
      start table single its_name (waits same untold others left) =
    let r = hook_class_methods env clazz before t in
    let (count, backup, listing) =
      hook_class_methods-written env clazz shorty address owner name listed ws before t vm clear
        start ours table.ours others table.named in
    let stands : Standing shorty listed (ws ++ before) ms (r.0 == 0) name before r.1
        (if r.0 == 0 then replaced else true) =
      hooked backup (told_of r.0 _ replaced count untold)
        (λ o own_name.
          write_all-append shorty ws before o
          ∙ ap (write_all shorty before)
              (write_all-other shorty ws o (subst (λ n. IsOther n ws) (sym own_name) others)))
        (counts_of r.0 _ count) (single.0 its_name) in
    subst
      (λ b.
        let r = hook_class_methods env clazz b t in
        (r.0 ≡ hooked_count shorty listed before)
        × (env.native_methods r.2 clazz ≡ map (write_all shorty (ws ++ before)) listed)
        × Standing shorty listed (ws ++ before) ms (r.0 == 0) name before r.1
            (if r.0 == 0 then replaced else true))
      (sym same) (count, listing, stands)

pub IsNamed-backed_up :
    (shorty : Shorty) (listed ms : List NativeMethod) (name : Text)
    → IsNamed name ms
    → IsNamed name (map (backed_up shorty listed) ms)
IsNamed-backed_up shorty listed [] name named = tt
IsNamed-backed_up shorty listed (m ∷ ms) name (its_name, named) =
    ((backed_up-keeps shorty listed m).0 ∙ its_name, IsNamed-backed_up shorty listed ms name named)

cleared-backed_up :
    (shorty : Shorty) (listed ms : List NativeMethod)
    → map cleared_method (map (backed_up shorty listed) ms) ≡ map cleared_method ms
cleared-backed_up shorty listed [] = refl
cleared-backed_up shorty listed (m ∷ ms) =
    let (name, signature) = backed_up-keeps shorty listed m in
    ap
      (λ n.
        record { name = n; signature = (backed_up shorty listed m).signature; fn = 0 }
        ∷ map cleared_method (map (backed_up shorty listed) ms))
      name
    ∙ ap
        (λ q.
          record { name = m.name; signature = q; fn = 0 }
          ∷ map cleared_method (map (backed_up shorty listed) ms))
        signature
    ∙ ap (λ ks. cleared_method m ∷ ks) (cleared-backed_up shorty listed ms)

module _ (shorty : Shorty) (listed ws ms : List NativeMethod) (missing : Bool) (name : Text)
    (before now : List NativeMethod) (replaced : Bool)
    (stands : Standing shorty listed ws ms missing name before now replaced) where
  pub Standing-IsNamed : IsNamed name before → IsNamed name now
  Standing-IsNamed named = elim stands [
    | waits same untold others left ↦ subst (IsNamed name) (sym same) named
    | hooked same told wrote counts others ↦
        subst (IsNamed name) (sym same) (IsNamed-backed_up shorty listed before name named)
  ]

  put_back_own :
      (o : NativeMethod)
      → IsEntry listed o
      → o.name ≡ name
      → write_all shorty ws o ≡ write_all shorty before o
      → now ≡ map (backed_up shorty listed) before
      → write_all shorty now (write_all shorty ws o) ≡ o
  put_back_own o entry its_name wrote same =
      ap (λ x. write_all shorty now x) wrote
      ∙ ap (λ l. write_all shorty l (write_all shorty before o)) same
      ∙ put_back_entry shorty listed before o entry

  -- A table that has replaced a method brings an entry back; else there is nothing to bring back.
  pub Standing-puts_back :
      (o : NativeMethod)
      → IsEntry listed o
      → o.name ≡ name
      → write_all shorty (if replaced then now else []) (write_all shorty ws o) ≡ o
  unfolding write_all
  Standing-puts_back o entry its_name = elim stands [
    | waits same untold others left ↦
        rw untold (write_all-other shorty ws o (subst (λ n. IsOther n ws) (sym its_name) others))
    | hooked same told wrote counts others ↦
        (elim (==_cases (hooked_count shorty listed before) 0) [
          | inl (test, zeroed) ↦
              rw (told ∙ ap not test)
                (wrote o its_name ∙ write_all-unhooked shorty listed before o entry zeroed)
          | inr (test, some_hooked) ↦
              rw (told ∙ ap not test) (put_back_own o entry its_name (wrote o its_name) same)
        ])
  ]

  -- What has become of the table, where no method was missing.
  pub Standing-end :
      ms ≡ []
      → missing ≡ false
      → (IsOther name listed × (now ≡ before))
        ⊎ ((hooked_count shorty listed before ≢ 0) × (now ≡ map (backed_up shorty listed) before))
  Standing-end ended found = elim stands [
    | waits same untold others (inl stopped) ↦ absurd (cc)
    | waits same untold others (inr left) ↦ inl (
      All-mono _ _ (λ o h its_name. elim (subst (Occurs o) ended (h its_name)) [ ]) listed left,
      same,
    )
    | hooked same told wrote (inl stopped) others ↦ absurd (cc)
    | hooked same told wrote (inr some_hooked) others ↦ inr (some_hooked, same)
  ]

  -- An entry of the name has what the table as it was writes to it.
  pub Standing-written :
      (o : NativeMethod)
      → ms ≡ []
      → missing ≡ false
      → Occurs o listed
      → o.name ≡ name
      → write_all shorty ws o ≡ write_all shorty before o
  Standing-written o ended found there its_name = elim stands [
    | waits same untold others (inl stopped) ↦ absurd (cc)
    | waits same untold others (inr left) ↦
        (elim (subst (Occurs o) ended (Occurs-All _ o listed there left its_name)) [ ])
    | hooked same told wrote counts others ↦ wrote o its_name
  ]

  pub Standing-cleared : map cleared_method now ≡ map cleared_method before
  Standing-cleared = elim stands [
    | waits same untold others left ↦ ap (map cleared_method) same
    | hooked same told wrote counts others ↦
        ap (map cleared_method) same ∙ cleared-backed_up shorty listed before
  ]
