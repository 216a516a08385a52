-- ===== src/Jni/Restore/Tables.antt =====
-- The variables of the loop of `hook_zygote_jni` over Zygote's native methods, and the branches of
-- its body.
use zygisk_magisk_module.Prelude.{
  ℕ, ◌≡◌, ◌≢◌, refl, ◌⊎◌, inl, inr, Bool, true, false, List, ◌==◌, Bool-cases, map, if◌then◌else◌,
  All,
}
use zygisk_magisk_module.World.{Text, NativeMethod, Env, HookContext}
use zygisk_magisk_module.Plt.{eq_text}
use zygisk_magisk_module.Plt.Selection.{eq_text_iff}
use zygisk_magisk_module.Jni.{hook_class_methods}
use zygisk_magisk_module.Jni.Vm.{Shorty, write_all}
use zygisk_magisk_module.Jni.Zygote.{
  fork_app_name, specialize_app_name, fork_server_name, Replacing, replace_method,
}
use zygisk_magisk_module.Jni.RoundTrip.Backup.{hooked_count}
use zygisk_magisk_module.Jni.Listing.{IsOurs}
use zygisk_magisk_module.Jni.Restore.Slots.{IsTable, Standing}

-- The name of one of the tables.
abbrev pub IsHookedName : Text → Type 0
IsHookedName name =
    (name ≡ fork_app_name) ⊎ ((name ≡ specialize_app_name) ⊎ (name ≡ fork_server_name))

-- The tables of `h` are for the names, and for these only.
pub record IsTables (address : Text → Text → ℕ) (owner : ℕ → Text × Text)
    (listed : List NativeMethod) (h : HookContext) : Type 0 where
  pub fork_app : IsTable address owner listed fork_app_name h.fork_app_methods
  pub specialize_app : IsTable address owner listed specialize_app_name h.specialize_app_methods
  pub fork_server : IsTable address owner listed fork_server_name h.fork_server_methods

-- The variables of the loop, when the methods `ws` have been registered and `ms` are left.
pub record IsVisiting (env : Env) (clazz : ℕ) (shorty : Shorty) (address : Text → Text → ℕ)
    (owner : ℕ → Text × Text) (listed : List NativeMethod) (h : HookContext)
    (ws ms : List NativeMethod) (missing : Bool) (r : Replacing) : Type 0 where
  pub listing : env.native_methods r.trace clazz ≡ map (write_all shorty ws) listed
  pub ours : All (IsOurs address owner listed) ws
  pub named : All (λ w. IsHookedName w.name) ws
  pub fork_app :
      Standing shorty listed ws ms missing fork_app_name h.fork_app_methods r.hook.fork_app_methods
        r.replaced_fork_app
  pub specialize_app :
      Standing shorty listed ws ms missing specialize_app_name h.specialize_app_methods
        r.hook.specialize_app_methods r.replaced_specialize_app
  pub fork_server :
      Standing shorty listed ws ms missing fork_server_name h.fork_server_methods
        r.hook.fork_server_methods r.replaced_fork_server
  pub why :
      missing ≡ true
      → (hooked_count shorty listed h.fork_app_methods ≡ 0)
        ⊎ ((hooked_count shorty listed h.specialize_app_methods ≡ 0)
            ⊎ (hooked_count shorty listed h.fork_server_methods ≡ 0))

other_text : (s t : Text) → eq_text s t ≡ false → s ≢ t
other_text s t other same = let test = (eq_text_iff s t).1 same in absurd (cc)

pub fork_app≢specialize_app : fork_app_name ≢ specialize_app_name
unfolding eq_text
fork_app≢specialize_app = other_text fork_app_name specialize_app_name refl

pub fork_app≢fork_server : fork_app_name ≢ fork_server_name
unfolding eq_text
fork_app≢fork_server = other_text fork_app_name fork_server_name refl

pub specialize_app≢fork_server : specialize_app_name ≢ fork_server_name
unfolding eq_text
specialize_app≢fork_server = other_text specialize_app_name fork_server_name refl

-- What the body of the loop assigns at a method of each name.
abbrev pub after_fork_app : Env → ℕ → Replacing → Replacing
after_fork_app env clazz r =
    let (hooks, table, t) = hook_class_methods env clazz r.hook.fork_app_methods r.trace in
    record r {
      hook = record r.hook { fork_app_methods = table };
      replaced_fork_app = if hooks == 0 then r.replaced_fork_app else true;
      missing = hooks == 0;
      trace = t;
    }

abbrev pub after_specialize_app : Env → ℕ → Replacing → Replacing
after_specialize_app env clazz r =
    let (hooks, table, t) = hook_class_methods env clazz r.hook.specialize_app_methods r.trace in
    record r {
      hook = record r.hook { specialize_app_methods = table };
      replaced_specialize_app = if hooks == 0 then r.replaced_specialize_app else true;
      missing = hooks == 0;
      trace = t;
    }

abbrev pub after_fork_server : Env → ℕ → Replacing → Replacing
after_fork_server env clazz r =
    let (hooks, table, t) = hook_class_methods env clazz r.hook.fork_server_methods r.trace in
    record r {
      hook = record r.hook { fork_server_methods = table };
      replaced_fork_server = if hooks == 0 then r.replaced_fork_server else true;
      missing = hooks == 0;
      trace = t;
    }

pub eq_text_cases :
    (s t : Text) → ((eq_text s t ≡ true) × (s ≡ t)) ⊎ ((eq_text s t ≡ false) × (s ≢ t))
eq_text_cases s t = elim (Bool-cases (eq_text s t)) [
  | inl same ↦ inl (same, (eq_text_iff s t).0 same)
  | inr other ↦ inr (other, other_text s t other)
]

-- The branches of the body.
pub replace_method_cases :
    (env : Env) (clazz : ℕ) (m : NativeMethod) (r : Replacing)
    → ((m.name ≡ fork_app_name) × (replace_method env clazz m r ≡ after_fork_app env clazz r))
      ⊎ (((m.name ≡ specialize_app_name)
            × (replace_method env clazz m r ≡ after_specialize_app env clazz r))
          ⊎ (((m.name ≡ fork_server_name)
                × (replace_method env clazz m r ≡ after_fork_server env clazz r))
              ⊎ ((m.name ≢ fork_app_name)
                  × (m.name ≢ specialize_app_name)
                  × (m.name ≢ fork_server_name)
                  × (replace_method env clazz m r ≡ r))))
unfolding replace_method
replace_method_cases env clazz m r = elim (eq_text_cases m.name fork_app_name) [
  | inl (test, same) ↦ inl (same, rw test refl)
  | inr (test, other) ↦ inr (elim (eq_text_cases m.name specialize_app_name) [
    | inl (test', same) ↦ inl (same, rw test (rw test' refl))
    | inr (test', other') ↦ inr (elim (eq_text_cases m.name fork_server_name) [
      | inl (test'', same) ↦ inl (same, rw test (rw test' (rw test'' refl)))
      | inr (test'', other'') ↦ inr (other, other', other'', rw test (rw test' (rw test'' refl)))
    ])
  ])
]
