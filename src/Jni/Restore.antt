-- ===== src/Jni/Restore.antt =====
-- The hooks of Zygote's native methods, and their removal by `restore_zygote_hook`.
pub mod Slots
pub mod Visit
pub mod Tables
pub mod Round
pub mod Loop
pub mod Chain
pub mod Finish
use zygisk_magisk_module.Prelude.{
  ℕ, suc, ◌≡◌, ◌≢◌, refl, sym, ap, subst, ◌∙◌, ◌↔◌, ◌⊎◌, inl, inr, Bool, true, false, not, ◌&&◌,
  Option, none, some, List, [], ◌∷◌, ◌++◌, ◌==◌, ==_iff, ==_cases, Bool-cases, Option-cases, map,
  arith, if◌then◌else◌, All, All-append, All-mono, Any, Any-mono, Any-All, Occurs, Occurs-All,
  All-Occurs, map-cong, map-undone, map-same,
}
use zygisk_magisk_module.World.{
  Text, NativeMethod, Call, find_class, get_native_methods, Env, HookContext,
}
use zygisk_magisk_module.Jni.{cleared_method, register_jni_methods}
use zygisk_magisk_module.Jni.Vm.{Shorty, write_all, IsVm, IsEntry, IsClear, IsOwn}
use zygisk_magisk_module.Jni.Zygote.{
  zygote_class, fork_app_name, specialize_app_name, fork_server_name, Replacing, replace_methods,
  start_replacing, put_back, finish_replacing, replace_in_zygote, restore_zygote_hook,
}
use zygisk_magisk_module.Jni.Registration.{register_jni_methods_lem}
use zygisk_magisk_module.Jni.RoundTrip.Backup.{backed_up, hooked_count}
use zygisk_magisk_module.Jni.RoundTrip.{put_back_entry}
use zygisk_magisk_module.Jni.RoundTrip.Writes.{write_all-keeps}
use zygisk_magisk_module.Jni.Listing.{write_all-other}
use zygisk_magisk_module.Jni.Listing.Hooked.{IsOther, IsNamed, IsNamed-IsOther}
use zygisk_magisk_module.Jni.Restore.Slots.{Standing}
use zygisk_magisk_module.Jni.Restore.Visit.{
  IsNamed-backed_up, Standing-IsNamed, Standing-puts_back, Standing-end, Standing-written,
  Standing-cleared,
}
use zygisk_magisk_module.Jni.Restore.Tables.{IsHookedName, IsTables, IsVisiting}
use zygisk_magisk_module.Jni.Restore.Loop.{start_replacing-Visiting}
use zygisk_magisk_module.Jni.Restore.Chain.{
  write_three, write_three_cases, write_three-fork_app, write_three-specialize_app,
  write_three-fork_server, write_three-other, map-write_three, write_all-cleared, put_back_lem,
}
use zygisk_magisk_module.Jni.Restore.Finish.{IsKept, IsGivenUp, IsReplaced, finish_replacing_lem}

-- Tables whose functions tell their methods apart and are new to Zygote, each with methods of its
-- name only; Zygote has no overload of these names: then either no method of some name can be
-- replaced, all tables have null functions, and the class lists what it did; or each table of which
-- the class has the name holds the old functions of its methods, at least one of which is listed,
-- another table is as it was, and the class lists the functions of the tables for their methods and
-- the old ones for all others.
pub replace_in_zygote_lem :
    (env : Env) (shorty : Shorty) (address : Text → Text → ℕ) (owner : ℕ → Text × Text)
    (h : HookContext) (t : List Call)
    → IsVm env (env.address t (find_class zygote_class)) shorty
    → IsClear shorty
        (env.native_methods (find_class zygote_class ∷ t) (env.address t (find_class zygote_class)))
    → IsTables address owner
        (env.native_methods (find_class zygote_class ∷ t) (env.address t (find_class zygote_class)))
        h
    → let clazz = env.address t (find_class zygote_class) in
      let listed = env.native_methods (find_class zygote_class ∷ t) clazz in
      let r = replace_in_zygote env h t in
      IsGivenUp env clazz shorty listed h r ⊎ IsReplaced env clazz shorty listed h r
unfolding replace_in_zygote
replace_in_zygote_lem env shorty address owner h t vm clear tables =
    let clazz = env.address t (find_class zygote_class) in
    let found = find_class zygote_class ∷ t in
    let listed = env.native_methods found clazz in
    let (ws, last) =
      start_replacing-Visiting env clazz shorty address owner listed h vm clear tables
        (get_native_methods clazz ∷ found) (vm.asked found) in
    finish_replacing_lem env clazz shorty address owner listed h ws _ vm clear tables last

-- What `restore_zygote_hook` makes of the class.
restore_zygote_hook_lem :
    (env : Env) (clazz : ℕ) (shorty : Shorty) (h : HookContext) (v : List Call)
    → IsVm env clazz shorty
    → env.address v (find_class zygote_class) ≡ clazz
    → env.native_methods (restore_zygote_hook env h v).1 clazz
      ≡ map
          (write_three shorty h.fork_app_methods h.specialize_app_methods h.fork_server_methods)
          (env.native_methods (find_class zygote_class ∷ v) clazz)
unfolding restore_zygote_hook
restore_zygote_hook_lem env clazz shorty h v vm same =
    let registers : (ms : List NativeMethod) (t : List Call)
        → env.native_methods
            (register_jni_methods env (env.address v (find_class zygote_class)) ms t).1 clazz
          ≡ map (write_all shorty ms) (env.native_methods t clazz) =
      λ ms t.
        ap (λ c. env.native_methods (register_jni_methods env c ms t).1 clazz) same
        ∙ (register_jni_methods_lem env clazz shorty vm ms t).1 in
    registers h.fork_server_methods _
    ∙ ap (map (write_all shorty h.fork_server_methods)) (registers h.specialize_app_methods _)
    ∙ ap
        (λ l.
          map (write_all shorty h.fork_server_methods)
            (map (write_all shorty h.specialize_app_methods) l))
        (registers h.fork_app_methods _)
    ∙ map-write_three shorty h.fork_app_methods h.specialize_app_methods h.fork_server_methods _

-- Tables without functions change nothing.
map-write_three-cleared :
    (shorty : Shorty) (h : HookContext) (apps specialized servers os : List NativeMethod)
    → h.fork_app_methods ≡ map cleared_method apps
    → h.specialize_app_methods ≡ map cleared_method specialized
    → h.fork_server_methods ≡ map cleared_method servers
    → map (write_three shorty h.fork_app_methods h.specialize_app_methods h.fork_server_methods) os
      ≡ os
map-write_three-cleared shorty h apps specialized servers os app specialize server =
    map-same _ os (λ o.
      ap (λ l. write_three shorty l h.specialize_app_methods h.fork_server_methods o) app
      ∙ ap (λ l. write_three shorty (map cleared_method apps) l h.fork_server_methods o) specialize
      ∙ ap (λ l. write_three shorty (map cleared_method apps) (map cleared_method specialized) l o)
          server
      ∙ write_all-cleared shorty servers _
      ∙ write_all-cleared shorty specialized _
      ∙ write_all-cleared shorty apps o)

-- A table that was hooked brings an entry of its name back.
IsKept-restores :
    (shorty : Shorty) (listed : List NativeMethod) (name : Text) (before now : List NativeMethod)
    (o : NativeMethod)
    → IsKept shorty listed name before now
    → IsEntry listed o
    → Occurs o listed
    → o.name ≡ name
    → write_all shorty now (write_all shorty before o) ≡ o
IsKept-restores shorty listed name before now o (inl (others, same)) entry there its_name =
    absurd (Occurs-All _ o listed there others its_name)
IsKept-restores shorty listed name before now o (inr (some_hooked, same)) entry there its_name =
    ap (λ l. write_all shorty l (write_all shorty before o)) same
    ∙ put_back_entry shorty listed before o entry

IsKept-IsNamed :
    (shorty : Shorty) (listed : List NativeMethod) (name : Text) (before now : List NativeMethod)
    → IsKept shorty listed name before now
    → IsNamed name before
    → IsNamed name now
IsKept-IsNamed shorty listed name before now (inl (others, same)) named =
    subst (IsNamed name) (sym same) named
IsKept-IsNamed shorty listed name before now (inr (some_hooked, same)) named =
    subst (IsNamed name) (sym same) (IsNamed-backed_up shorty listed before name named)

write_three-restores :
    (env : Env) (clazz : ℕ) (shorty : Shorty) (address : Text → Text → ℕ) (owner : ℕ → Text × Text)
    (listed : List NativeMethod) (h : HookContext) (r : HookContext × List Call)
    → IsClear shorty listed
    → IsTables address owner listed h
    → IsReplaced env clazz shorty listed h r
    → All
        (λ o.
          write_three shorty r.0.fork_app_methods r.0.specialize_app_methods r.0.fork_server_methods
            (write_three shorty h.fork_app_methods h.specialize_app_methods h.fork_server_methods o)
          ≡ o)
        listed
write_three-restores env clazz shorty address owner listed h (h', u) clear tables
      (app, specialize, server, listing) =
    let named = IsKept-IsNamed shorty listed _ _ _ app tables.fork_app.named in
    let named' = IsKept-IsNamed shorty listed _ _ _ specialize tables.specialize_app.named in
    let named'' = IsKept-IsNamed shorty listed _ _ _ server tables.fork_server.named in
    let again =
      write_three shorty h'.fork_app_methods h'.specialize_app_methods h'.fork_server_methods in
    let kept : (ms : List NativeMethod) (o : NativeMethod) → (write_all shorty ms o).name ≡ o.name =
      λ ms o. ap (λ x. x.name) (write_all-keeps shorty ms o) in
    All-mono _ _
      (λ o there.
        let entry = Occurs-All (IsEntry listed) o listed there clear.entries in
        elim (write_three_cases shorty _ _ _ tables.fork_app.named tables.specialize_app.named
          tables.fork_server.named o) [
            | inl (same, e) ↦
                ap again e
                ∙ write_three-fork_app shorty _ _ _ named named' named'' _ (kept _ o ∙ same)
                ∙ IsKept-restores shorty listed _ _ _ o app entry there same
            | inr (inl (same, e)) ↦
                ap again e
                ∙ write_three-specialize_app shorty _ _ _ named named' named'' _ (kept _ o ∙ same)
                ∙ IsKept-restores shorty listed _ _ _ o specialize entry there same
            | inr (inr (inl (same, e))) ↦
                ap again e
                ∙ write_three-fork_server shorty _ _ _ named named' named'' _ (kept _ o ∙ same)
                ∙ IsKept-restores shorty listed _ _ _ o server entry there same
            | inr (inr (inr (no_app, no_specialize, no_server, e))) ↦
                ap again e
                ∙ write_three-other shorty _ _ _ named named' named'' o no_app no_specialize
                    no_server
          ])
      listed (All-Occurs listed)

-- To restore what `hook_zygote_jni` has hooked, or has given up, brings each native method of Zygote
-- its old function again. The tables' functions tell their methods apart and are new to Zygote, each
-- table is for its name only, of which Zygote has no overload, and nothing else has changed the
-- class since.
pub restore_zygote_hook-replace_in_zygote :
    (env : Env) (shorty : Shorty) (address : Text → Text → ℕ) (owner : ℕ → Text × Text)
    (h : HookContext) (t v : List Call)
    → IsVm env (env.address t (find_class zygote_class)) shorty
    → IsClear shorty
        (env.native_methods (find_class zygote_class ∷ t) (env.address t (find_class zygote_class)))
    → IsTables address owner
        (env.native_methods (find_class zygote_class ∷ t) (env.address t (find_class zygote_class)))
        h
    → env.address v (find_class zygote_class) ≡ env.address t (find_class zygote_class)
    → env.native_methods (find_class zygote_class ∷ v) (env.address t (find_class zygote_class))
      ≡ env.native_methods (replace_in_zygote env h t).1 (env.address t (find_class zygote_class))
    → let clazz = env.address t (find_class zygote_class) in
      env.native_methods (restore_zygote_hook env (replace_in_zygote env h t).0 v).1 clazz
      ≡ env.native_methods (find_class zygote_class ∷ t) clazz
restore_zygote_hook-replace_in_zygote env shorty address owner h t v vm clear tables same
      unchanged =
    let clazz = env.address t (find_class zygote_class) in
    let listed = env.native_methods (find_class zygote_class ∷ t) clazz in
    let h' = (replace_in_zygote env h t).0 in
    let three =
      write_three shorty h'.fork_app_methods h'.specialize_app_methods h'.fork_server_methods in
    restore_zygote_hook_lem env clazz shorty h' v vm same
    ∙ ap (map three) unchanged
    ∙ (elim (replace_in_zygote_lem env shorty address owner h t vm clear tables) [
      | inl (none_replaced, app, specialize, server, listing) ↦
          map-write_three-cleared shorty h' _ _ _ _ app specialize server ∙ listing
      | inr replaced ↦
          ap (map three) replaced.3
          ∙ map-undone _ _ listed (
              write_three-restores env clazz shorty address owner listed h
                (replace_in_zygote env h t) clear tables replaced)
    ])
