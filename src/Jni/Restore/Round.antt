-- ===== src/Jni/Restore/Round.antt =====
-- A round of the loop of `hook_zygote_jni`.
use zygisk_magisk_module.Prelude.{
  ℕ, ◌≡◌, ◌≢◌, sym, subst, ◌∙◌, inl, inr, Bool, true, false, List, ◌∷◌, ◌++◌, ◌==◌, arith,
  All-append, All-mono,
}
use zygisk_magisk_module.World.{Text, NativeMethod, Env, HookContext}
use zygisk_magisk_module.Jni.Vm.{Shorty, IsVm, IsClear}
use zygisk_magisk_module.Jni.Zygote.{
  fork_app_name, specialize_app_name, fork_server_name, Replacing, replace_method,
}
use zygisk_magisk_module.Jni.Listing.Hooked.{IsNamed, IsNamed-IsOther}
use zygisk_magisk_module.Jni.Restore.Slots.{IsSingle, Standing, Standing-skip, Standing-append}
use zygisk_magisk_module.Jni.Restore.Visit.{Standing-hook}
use zygisk_magisk_module.Jni.Restore.Tables.{
  IsTables, IsVisiting, fork_app≢specialize_app, fork_app≢fork_server, specialize_app≢fork_server,
  after_fork_app, after_specialize_app, after_fork_server, replace_method_cases,
}

-- A table to register next: the others keep what they are.
Standing-beside :
    (shorty : Shorty) (listed ws vs ms : List NativeMethod) (m : NativeMethod) (name other : Text)
    (before now : List NativeMethod) (replaced missing : Bool)
    → other ≢ name
    → m.name ≡ other
    → IsNamed other vs
    → Standing shorty listed ws (m ∷ ms) false name before now replaced
    → Standing shorty listed (ws ++ vs) ms missing name before now replaced
Standing-beside shorty listed ws vs ms m name other before now replaced missing differ its_name
      named stands =
    Standing-append shorty listed ws vs ms name before now replaced missing
      (IsNamed-IsOther other name vs differ named)
      (Standing-skip shorty listed ws ms m name before now replaced missing
        (λ same. differ (sym its_name ∙ same)) stands)

zero_of : (n k : ℕ) → n ≡ k → (n == 0) ≡ true → k ≡ 0
zero_of n k same test = ground arith

module _ (env : Env) (clazz : ℕ) (shorty : Shorty) (address : Text → Text → ℕ)
    (owner : ℕ → Text × Text) (listed : List NativeMethod) (h : HookContext)
    (vm : IsVm env clazz shorty) (clear : IsClear shorty listed)
    (tables : IsTables address owner listed h) where
  abbrev pub Visiting : List NativeMethod → Bool → Replacing → Type 0
  Visiting ms missing r =
      (ws : List NativeMethod) × IsVisiting env clazz shorty address owner listed h ws ms missing r

  visit_fork_app :
      (ws ms : List NativeMethod) (m : NativeMethod) (r : Replacing)
      → IsVisiting env clazz shorty address owner listed h ws (m ∷ ms) false r
      → IsSingle fork_app_name (m ∷ ms)
      → m.name ≡ fork_app_name
      → let next = after_fork_app env clazz r in Visiting ms next.missing next
  visit_fork_app ws ms m r now single its_name =
      let table = tables.fork_app in
      let (count, listing, stands) =
        Standing-hook env clazz shorty address owner listed ws ms m fork_app_name h.fork_app_methods
          r.hook.fork_app_methods r.replaced_fork_app r.trace vm clear now.ours now.listing table
          single its_name now.fork_app in
      (
        ws ++ h.fork_app_methods,
        record {
          listing = listing;
          ours = All-append _ ws h.fork_app_methods now.ours table.ours;
          named =
              All-append _ ws h.fork_app_methods now.named
                (All-mono _ _ (λ w e. inl e) h.fork_app_methods table.named);
          fork_app = stands;
          specialize_app =
              Standing-beside shorty listed ws h.fork_app_methods ms m specialize_app_name
                fork_app_name _ _ _ _ fork_app≢specialize_app its_name table.named
                now.specialize_app;
          fork_server =
              Standing-beside shorty listed ws h.fork_app_methods ms m fork_server_name
                fork_app_name _ _ _ _ fork_app≢fork_server its_name table.named now.fork_server;
          why = λ failed. inl (zero_of _ _ count failed);
        },
      )

  visit_specialize_app :
      (ws ms : List NativeMethod) (m : NativeMethod) (r : Replacing)
      → IsVisiting env clazz shorty address owner listed h ws (m ∷ ms) false r
      → IsSingle specialize_app_name (m ∷ ms)
      → m.name ≡ specialize_app_name
      → let next = after_specialize_app env clazz r in Visiting ms next.missing next
  visit_specialize_app ws ms m r now single its_name =
      let table = tables.specialize_app in
      let (count, listing, stands) =
        Standing-hook env clazz shorty address owner listed ws ms m specialize_app_name
          h.specialize_app_methods r.hook.specialize_app_methods r.replaced_specialize_app r.trace
          vm clear now.ours now.listing table single its_name now.specialize_app in
      (
        ws ++ h.specialize_app_methods,
        record {
          listing = listing;
          ours = All-append _ ws h.specialize_app_methods now.ours table.ours;
          named =
              All-append _ ws h.specialize_app_methods now.named
                (All-mono _ _ (λ w e. inr (inl e)) h.specialize_app_methods table.named);
          fork_app =
              Standing-beside shorty listed ws h.specialize_app_methods ms m fork_app_name
                specialize_app_name _ _ _ _ (λ e. fork_app≢specialize_app (sym e)) its_name
                table.named now.fork_app;
          specialize_app = stands;
          fork_server =
              Standing-beside shorty listed ws h.specialize_app_methods ms m fork_server_name
                specialize_app_name _ _ _ _ specialize_app≢fork_server its_name table.named
                now.fork_server;
          why = λ failed. inr (inl (zero_of _ _ count failed));
        },
      )

  visit_fork_server :
      (ws ms : List NativeMethod) (m : NativeMethod) (r : Replacing)
      → IsVisiting env clazz shorty address owner listed h ws (m ∷ ms) false r
      → IsSingle fork_server_name (m ∷ ms)
      → m.name ≡ fork_server_name
      → let next = after_fork_server env clazz r in Visiting ms next.missing next
  visit_fork_server ws ms m r now single its_name =
      let table = tables.fork_server in
      let (count, listing, stands) =
        Standing-hook env clazz shorty address owner listed ws ms m fork_server_name
          h.fork_server_methods r.hook.fork_server_methods r.replaced_fork_server r.trace vm clear
          now.ours now.listing table single its_name now.fork_server in
      (
        ws ++ h.fork_server_methods,
        record {
          listing = listing;
          ours = All-append _ ws h.fork_server_methods now.ours table.ours;
          named =
              All-append _ ws h.fork_server_methods now.named
                (All-mono _ _ (λ w e. inr (inr e)) h.fork_server_methods table.named);
          fork_app =
              Standing-beside shorty listed ws h.fork_server_methods ms m fork_app_name
                fork_server_name _ _ _ _ (λ e. fork_app≢fork_server (sym e)) its_name table.named
                now.fork_app;
          specialize_app =
              Standing-beside shorty listed ws h.fork_server_methods ms m specialize_app_name
                fork_server_name _ _ _ _ (λ e. specialize_app≢fork_server (sym e)) its_name
                table.named now.specialize_app;
          fork_server = stands;
          why = λ failed. inr (inr (zero_of _ _ count failed));
        },
      )

  visit_other :
      (ws ms : List NativeMethod) (m : NativeMethod) (r : Replacing)
      → IsVisiting env clazz shorty address owner listed h ws (m ∷ ms) false r
      → m.name ≢ fork_app_name
      → m.name ≢ specialize_app_name
      → m.name ≢ fork_server_name
      → IsVisiting env clazz shorty address owner listed h ws ms false r
  visit_other ws ms m r now no_app no_specialize no_server = record {
    listing = now.listing;
    ours = now.ours;
    named = now.named;
    fork_app = Standing-skip shorty listed ws ms m _ _ _ _ _ no_app now.fork_app;
    specialize_app = Standing-skip shorty listed ws ms m _ _ _ _ _ no_specialize now.specialize_app;
    fork_server = Standing-skip shorty listed ws ms m _ _ _ _ _ no_server now.fork_server;
    why = λ failed. absurd (cc);
  }

  -- One round of the loop.
  pub replace_method-Visiting :
      (ws ms : List NativeMethod) (m : NativeMethod) (r : Replacing)
      → IsVisiting env clazz shorty address owner listed h ws (m ∷ ms) false r
      → r.missing ≡ false
      → IsSingle fork_app_name (m ∷ ms)
      → IsSingle specialize_app_name (m ∷ ms)
      → IsSingle fork_server_name (m ∷ ms)
      → let next = replace_method env clazz m r in Visiting ms next.missing next
  replace_method-Visiting ws ms m r now running single_app single_specialize single_server =
      elim (replace_method_cases env clazz m r) [
        | inl (its_name, e) ↦
            subst (λ n. Visiting ms n.missing n) (sym e)
              (visit_fork_app ws ms m r now single_app its_name)
        | inr (inl (its_name, e)) ↦
            subst (λ n. Visiting ms n.missing n) (sym e)
              (visit_specialize_app ws ms m r now single_specialize its_name)
        | inr (inr (inl (its_name, e))) ↦
            subst (λ n. Visiting ms n.missing n) (sym e)
              (visit_fork_server ws ms m r now single_server its_name)
        | inr (inr (inr (no_app, no_specialize, no_server, e))) ↦
            subst (λ n. Visiting ms n.missing n) (sym e)
              (subst (λ b. Visiting ms b r) (sym running)
                (ws, visit_other ws ms m r now no_app no_specialize no_server))
      ]
