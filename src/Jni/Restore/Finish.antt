-- ===== src/Jni/Restore/Finish.antt =====
-- What `hook_zygote_jni` leaves behind: all three tables, or none.
use zygisk_magisk_module.Prelude.{
  ℕ, ◌≡◌, ◌≢◌, refl, sym, ap, subst, ◌∙◌, ◌⊎◌, inl, inr, Bool, true, false, List, [], Bool-cases,
  map, if◌then◌else◌, All, All-mono, Occurs-All, All-Occurs, map-cong, map-undone,
}
use zygisk_magisk_module.World.{Text, NativeMethod, Call, Env, HookContext}
use zygisk_magisk_module.Jni.{cleared_method}
use zygisk_magisk_module.Jni.Vm.{Shorty, write_all, IsVm, IsEntry, IsClear}
use zygisk_magisk_module.Jni.Zygote.{
  fork_app_name, specialize_app_name, fork_server_name, Replacing, put_back, finish_replacing,
}
use zygisk_magisk_module.Jni.RoundTrip.Backup.{backed_up, hooked_count}
use zygisk_magisk_module.Jni.RoundTrip.Writes.{write_all-keeps}
use zygisk_magisk_module.Jni.Listing.{write_all-other}
use zygisk_magisk_module.Jni.Listing.Hooked.{IsOther, IsNamed}
use zygisk_magisk_module.Jni.Restore.Visit.{
  Standing-IsNamed, Standing-puts_back, Standing-end, Standing-written, Standing-cleared,
}
use zygisk_magisk_module.Jni.Restore.Tables.{IsHookedName, IsTables, IsVisiting}
use zygisk_magisk_module.Jni.Restore.Chain.{
  write_three, write_three_cases, map-write_three, put_back_lem,
}

-- A table that is not for the class, or that holds the old functions of its methods.
abbrev pub IsKept :
    Shorty → List NativeMethod → Text → List NativeMethod → List NativeMethod → Type 0
IsKept shorty listed name before now =
    (IsOther name listed × (now ≡ before))
    ⊎ ((hooked_count shorty listed before ≢ 0) × (now ≡ map (backed_up shorty listed) before))

-- None of the methods of a name could be replaced: no table has a function, and the class lists what
-- it did.
abbrev pub IsGivenUp :
    Env → ℕ → Shorty → List NativeMethod → HookContext → HookContext × List Call → Type 0
IsGivenUp env clazz shorty listed h (h', u) =
    ((hooked_count shorty listed h.fork_app_methods ≡ 0)
      ⊎ ((hooked_count shorty listed h.specialize_app_methods ≡ 0)
          ⊎ (hooked_count shorty listed h.fork_server_methods ≡ 0)))
    × (h'.fork_app_methods ≡ map cleared_method h.fork_app_methods)
    × (h'.specialize_app_methods ≡ map cleared_method h.specialize_app_methods)
    × (h'.fork_server_methods ≡ map cleared_method h.fork_server_methods)
    × (env.native_methods u clazz ≡ listed)

-- The class lists the functions of the three tables, which hold the old ones.
abbrev pub IsReplaced :
    Env → ℕ → Shorty → List NativeMethod → HookContext → HookContext × List Call → Type 0
IsReplaced env clazz shorty listed h (h', u) =
    IsKept shorty listed fork_app_name h.fork_app_methods h'.fork_app_methods
    × IsKept shorty listed specialize_app_name h.specialize_app_methods h'.specialize_app_methods
    × IsKept shorty listed fork_server_name h.fork_server_methods h'.fork_server_methods
    × (env.native_methods u clazz
        ≡ map (write_three shorty h.fork_app_methods h.specialize_app_methods h.fork_server_methods)
            listed)

IsNamed-if :
    (name : Text) (ms : List NativeMethod) (b : Bool)
    → IsNamed name ms
    → IsNamed name (if b then ms else [])
IsNamed-if name ms true named = named
IsNamed-if name ms false named = tt

module _ (env : Env) (clazz : ℕ) (shorty : Shorty) (address : Text → Text → ℕ)
    (owner : ℕ → Text × Text) (listed : List NativeMethod) (h : HookContext) where
  unhooked_entry :
      (ws : List NativeMethod) (o : NativeMethod)
      → All (λ w. IsHookedName w.name) ws
      → o.name ≢ fork_app_name
      → o.name ≢ specialize_app_name
      → o.name ≢ fork_server_name
      → write_all shorty ws o ≡ o
  unhooked_entry ws o named no_app no_specialize no_server = write_all-other shorty ws o (
      All-mono _ _
        (λ w is_hooked same. elim is_hooked [
          | inl app ↦ no_app (sym same ∙ app)
          | inr (inl specialize) ↦ no_specialize (sym same ∙ specialize)
          | inr (inr server) ↦ no_server (sym same ∙ server)
        ])
        ws named)

  -- What is left of the methods that were registered is put back.
  IsVisiting-put_back :
      (ws : List NativeMethod) (missing : Bool) (r : Replacing)
      → IsClear shorty listed
      → IsTables address owner listed h
      → IsVisiting env clazz shorty address owner listed h ws [] missing r
      → All
          (λ o.
            write_three shorty
              (if r.replaced_fork_app then r.hook.fork_app_methods else [])
              (if r.replaced_specialize_app then r.hook.specialize_app_methods else [])
              (if r.replaced_fork_server then r.hook.fork_server_methods else [])
              (write_all shorty ws o)
            ≡ o)
          listed
  IsVisiting-put_back ws missing r clear tables now =
      All-mono _ _
        (λ o there.
          let entry = Occurs-All (IsEntry listed) o listed there clear.entries in
          let its_name : (write_all shorty ws o).name ≡ o.name =
            ap (λ x. x.name) (write_all-keeps shorty ws o) in
          elim (write_three_cases shorty _ _ _
            (IsNamed-if fork_app_name _ r.replaced_fork_app (
              Standing-IsNamed shorty listed ws [] missing fork_app_name _ _ _ now.fork_app
                tables.fork_app.named))
            (IsNamed-if specialize_app_name _ r.replaced_specialize_app (
              Standing-IsNamed shorty listed ws [] missing specialize_app_name _ _ _
                now.specialize_app tables.specialize_app.named))
            (IsNamed-if fork_server_name _ r.replaced_fork_server (
              Standing-IsNamed shorty listed ws [] missing fork_server_name _ _ _ now.fork_server
                tables.fork_server.named))
            (write_all shorty ws o)) [
              | inl (same, e) ↦
                  e
                  ∙ Standing-puts_back shorty listed ws [] missing fork_app_name _ _ _ now.fork_app
                      o entry (sym its_name ∙ same)
              | inr (inl (same, e)) ↦
                  e
                  ∙ Standing-puts_back shorty listed ws [] missing specialize_app_name _ _ _
                      now.specialize_app o entry (sym its_name ∙ same)
              | inr (inr (inl (same, e))) ↦
                  e
                  ∙ Standing-puts_back shorty listed ws [] missing fork_server_name _ _ _
                      now.fork_server o entry (sym its_name ∙ same)
              | inr (inr (inr (no_app, no_specialize, no_server, e))) ↦
                  e
                  ∙ unhooked_entry ws o now.named (λ x. no_app (its_name ∙ x))
                      (λ x. no_specialize (its_name ∙ x)) (λ x. no_server (its_name ∙ x))
            ])
        listed (All-Occurs listed)

  IsVisiting-written :
      (ws : List NativeMethod) (r : Replacing)
      → IsTables address owner listed h
      → IsVisiting env clazz shorty address owner listed h ws [] false r
      → All
          (λ o.
            write_all shorty ws o
            ≡ write_three shorty h.fork_app_methods h.specialize_app_methods h.fork_server_methods
                o)
          listed
  IsVisiting-written ws r tables now =
      All-mono _ _
        (λ o there.
          elim (write_three_cases shorty _ _ _ tables.fork_app.named tables.specialize_app.named
            tables.fork_server.named o) [
              | inl (same, e) ↦
                  Standing-written shorty listed ws [] false fork_app_name _ _ _ now.fork_app o refl
                    refl there same
                  ∙ sym e
              | inr (inl (same, e)) ↦
                  Standing-written shorty listed ws [] false specialize_app_name _ _ _
                    now.specialize_app o refl refl there same
                  ∙ sym e
              | inr (inr (inl (same, e))) ↦
                  Standing-written shorty listed ws [] false fork_server_name _ _ _ now.fork_server
                    o refl refl there same
                  ∙ sym e
              | inr (inr (inr (no_app, no_specialize, no_server, e))) ↦
                  unhooked_entry ws o now.named no_app no_specialize no_server ∙ sym e
            ])
        listed (All-Occurs listed)

  IsVisiting-listing :
      (ws : List NativeMethod) (missing : Bool) (r : Replacing)
      → IsVm env clazz shorty
      → IsClear shorty listed
      → IsTables address owner listed h
      → IsVisiting env clazz shorty address owner listed h ws [] missing r
      → let t1 = put_back env clazz r.replaced_fork_app r.hook.fork_app_methods r.trace in
        let t2 = put_back env clazz r.replaced_specialize_app r.hook.specialize_app_methods t1 in
        let t3 = put_back env clazz r.replaced_fork_server r.hook.fork_server_methods t2 in
        env.native_methods t3 clazz ≡ listed
  IsVisiting-listing ws missing r vm clear tables now =
      let apps = if r.replaced_fork_app then r.hook.fork_app_methods else [] in
      let specialized = if r.replaced_specialize_app then r.hook.specialize_app_methods else [] in
      let servers = if r.replaced_fork_server then r.hook.fork_server_methods else [] in
      put_back_lem env clazz shorty r.replaced_fork_server r.hook.fork_server_methods _ vm
      ∙ ap (map (write_all shorty servers)) (
          put_back_lem env clazz shorty r.replaced_specialize_app r.hook.specialize_app_methods _
            vm)
      ∙ ap (λ l. map (write_all shorty servers) (map (write_all shorty specialized) l))
          (put_back_lem env clazz shorty r.replaced_fork_app r.hook.fork_app_methods r.trace vm)
      ∙ map-write_three shorty apps specialized servers (env.native_methods r.trace clazz)
      ∙ ap (map (write_three shorty apps specialized servers)) now.listing
      ∙ map-undone _ _ listed (IsVisiting-put_back ws missing r clear tables now)

  pub finish_replacing_lem :
      (ws : List NativeMethod) (r : Replacing)
      → IsVm env clazz shorty
      → IsClear shorty listed
      → IsTables address owner listed h
      → IsVisiting env clazz shorty address owner listed h ws [] r.missing r
      → let q = finish_replacing env clazz r in
        IsGivenUp env clazz shorty listed h q ⊎ IsReplaced env clazz shorty listed h q
  unfolding finish_replacing
  finish_replacing_lem ws r vm clear tables now = elim (Bool-cases r.missing) [
    | inl failed ↦ inl (
      now.why failed,
      rw failed (Standing-cleared shorty listed ws [] r.missing _ _ _ _ now.fork_app),
      rw failed (Standing-cleared shorty listed ws [] r.missing _ _ _ _ now.specialize_app),
      rw failed (Standing-cleared shorty listed ws [] r.missing _ _ _ _ now.fork_server),
      rw failed (IsVisiting-listing ws r.missing r vm clear tables now),
    )
    | inr found ↦
        let last =
          subst (λ b. IsVisiting env clazz shorty address owner listed h ws [] b r) found now in
        inr (
          rw found (Standing-end shorty listed ws [] false _ _ _ _ last.fork_app refl refl),
          rw found (Standing-end shorty listed ws [] false _ _ _ _ last.specialize_app refl refl),
          rw found (Standing-end shorty listed ws [] false _ _ _ _ last.fork_server refl refl),
          rw found (now.listing ∙ map-cong _ _ listed (IsVisiting-written ws r tables last)),
        )
  ]
