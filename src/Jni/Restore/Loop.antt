-- ===== src/Jni/Restore/Loop.antt =====
-- The loop of `hook_zygote_jni` over Zygote's native methods.
use zygisk_magisk_module.Prelude.{
  ℕ, ◌≡◌, refl, sym, ap, subst, ◌∙◌, inl, inr, Bool, true, false, List, [], ◌∷◌, Bool-cases,
  if◌then◌else◌, All-mono, All-Occurs,
}
use zygisk_magisk_module.World.{Text, NativeMethod, Call, Env, HookContext}
use zygisk_magisk_module.Jni.Vm.{Shorty, IsVm, IsClear}
use zygisk_magisk_module.Jni.Zygote.{
  fork_app_name, specialize_app_name, fork_server_name, Replacing, replace_method, replace_methods,
  start_replacing,
}
use zygisk_magisk_module.Jni.Registration.{map-write_nothing}
use zygisk_magisk_module.Jni.Restore.Slots.{IsSingle, waits, Standing-stop}
use zygisk_magisk_module.Jni.Restore.Tables.{IsTables, IsVisiting}
use zygisk_magisk_module.Jni.Restore.Round.{Visiting, replace_method-Visiting}

module _ (env : Env) (clazz : ℕ) (shorty : Shorty) (address : Text → Text → ℕ)
    (owner : ℕ → Text × Text) (listed : List NativeMethod) (h : HookContext)
    (vm : IsVm env clazz shorty) (clear : IsClear shorty listed)
    (tables : IsTables address owner listed h) where
  abbrev Stands : List NativeMethod → Bool → Replacing → Type 0
  Stands = Visiting env clazz shorty address owner listed h vm clear tables

  Visiting-stop : (ms : List NativeMethod) (r : Replacing) → Stands ms true r → Stands [] true r
  Visiting-stop ms r (ws, now) = (
    ws,
    record {
      listing = now.listing;
      ours = now.ours;
      named = now.named;
      fork_app = Standing-stop shorty listed ws ms _ _ _ _ now.fork_app;
      specialize_app = Standing-stop shorty listed ws ms _ _ _ _ now.specialize_app;
      fork_server = Standing-stop shorty listed ws ms _ _ _ _ now.fork_server;
      why = now.why;
    },
  )

  -- From a round on, to the end.
  replace_methods-Visiting :
      (ms ws : List NativeMethod) (r : Replacing)
      → IsVisiting env clazz shorty address owner listed h ws ms false r
      → r.missing ≡ false
      → IsSingle fork_app_name ms
      → IsSingle specialize_app_name ms
      → IsSingle fork_server_name ms
      → let last = replace_methods env clazz ms r in Stands [] last.missing last
  unfolding replace_methods
  replace_methods-Visiting [] ws r now running single_app single_specialize single_server =
      subst (λ b. Stands [] b r) (sym running) (ws, now)
  replace_methods-Visiting (m ∷ ms) ws r now running single_app single_specialize single_server =
      let next = replace_method env clazz m r in
      let rest = replace_methods env clazz ms next in
      let visited =
        replace_method-Visiting env clazz shorty address owner listed h vm clear tables ws ms m r
          now running single_app single_specialize single_server in
      let At : Replacing → Type 0 = λ q. Stands [] q.missing q in
      elim (Bool-cases next.missing) [
        | inl failed ↦
            let stopped = Visiting-stop ms next (subst (λ b. Stands ms b next) failed visited) in
            subst At (ap (λ b. if b then next else rest) (sym failed))
              (subst (λ b. Stands [] b next) (sym failed) stopped)
        | inr found ↦
            let (ws', now') = subst (λ b. Stands ms b next) found visited in
            subst At (ap (λ b. if b then next else rest) (sym found)) (
              replace_methods-Visiting ms ws' next now' found single_app.1 single_specialize.1
                single_server.1)
      ]

  -- From the start.
  pub start_replacing-Visiting :
      (t : List Call)
      → env.native_methods t clazz ≡ listed
      → let last = replace_methods env clazz listed (start_replacing h t) in
        Visiting env clazz shorty address owner listed h vm clear tables [] last.missing last
  start_replacing-Visiting t listing =
      replace_methods-Visiting listed [] (start_replacing h t)
        (record {
          listing = listing ∙ sym (map-write_nothing shorty listed);
          ours = tt;
          named = tt;
          fork_app =
              waits refl refl tt
                (inr (All-mono _ _ (λ o there its_name. there) listed (All-Occurs listed)));
          specialize_app =
              waits refl refl tt
                (inr (All-mono _ _ (λ o there its_name. there) listed (All-Occurs listed)));
          fork_server =
              waits refl refl tt
                (inr (All-mono _ _ (λ o there its_name. there) listed (All-Occurs listed)));
          why = λ failed. absurd (cc);
        })
        refl tables.fork_app.single tables.specialize_app.single tables.fork_server.single
