-- ===== src/Api/Layout.antt =====
-- What a registered module finds in its table, by the layout that its own header gives it.
use zygisk_magisk_module.Prelude.{
  ℕ, zero, suc, ℤ, pos, negsuc, ◌≡◌, refl, Bool, true, false, Option, none, some, arith, get_elem?,
  if◌then◌else◌, ◌↔◌, ◌⊎◌,
}
use zygisk_magisk_module.World.{
  ModuleAbi, ApiFn, hook_jni_fn, ctx_plt_hook_register, lsplt_register_hook, ctx_plt_hook_exclude,
  ctx_exempt_fd, ctx_plt_hook_commit, lsplt_commit_hook, connect_companion_fn, set_option_fn,
  get_module_dir_fn, get_flags_fn, ApiTable, ZygiskModule,
}
use zygisk_magisk_module.Api.{
  Member, hook_jni_native_methods, plt_hook_register, plt_hook_exclude, exempt_fd, plt_hook_commit,
  connect_companion, set_option, get_module_dir, get_flags, v1_offset, v2_offset, v4_offset,
  new_module, register_module, valid, has_all, is_version,
}

-- The version that a module is built for.
pub data Version : Type 0 where
  v1 v2 v3 v4 v5 : Version

abbrev pub number : Version → ℤ
number v1 = pos 1
number v2 = pos 2
number v3 = pos 3
number v4 = pos 4
number v5 = pos 5

-- `api_abi_v3` is `api_abi_v2`, and `api_abi_v5` is `api_abi_v4`.
abbrev pub offset : Version → Member → Option ℕ
offset v1 = v1_offset
offset v2 = v2_offset
offset v3 = v2_offset
offset v4 = v4_offset
offset v5 = v4_offset

-- Whether the functions for regular expressions are still offered: before version 4.
abbrev is_old : Version → Bool
is_old v1 = true
is_old v2 = true
is_old v3 = true
is_old v4 = false
is_old v5 = false

-- The function that a version promises for a member.
abbrev pub promised : Version → Member → ApiFn
promised v hook_jni_native_methods = hook_jni_fn
promised v plt_hook_register = if is_old v then ctx_plt_hook_register else lsplt_register_hook
promised v plt_hook_exclude = ctx_plt_hook_exclude
promised v exempt_fd = ctx_exempt_fd
promised v plt_hook_commit = if is_old v then ctx_plt_hook_commit else lsplt_commit_hook
promised v connect_companion = connect_companion_fn
promised v set_option = set_option_fn
promised v get_module_dir = get_module_dir_fn
promised v get_flags = get_flags_fn

-- A member of a table, read at its word.
abbrev pub member : ApiTable → Option ℕ → Option ApiFn
member t none = none
member t (some k) = get_elem? t.slots k

-- A new module that registers for a version from 1 to 5 is accepted, and finds at the word of each
-- member of that version's layout the function that the version promises, although later layouts
-- reuse the words of earlier ones.
pub register_module-promised :
    (v : Version) (mb : Member) (k : ℕ) (abi : ModuleAbi) (id handle entry : ℕ)
    → abi.api_version ≡ number v
    → offset v mb ≡ some k
    → let r = register_module true (some abi) (new_module id handle entry) in
      (r.0 ≡ true) × (r.1.abi ≡ some abi) × (member r.1.api (some k) ≡ some (promised v mb))
unfolding register_module new_module
register_module-promised v mb k abi id handle entry e o = ground arith

-- A number that some version has.
abbrev pub IsKnown : ℤ → Type 0
IsKnown z = (v : Version) × (z ≡ number v)

IsKnown-version : (z : ℤ) → is_version z ≡ true → IsKnown z
unfolding is_version
IsKnown-version (negsuc n) h = cc
IsKnown-version (pos zero) h = ground arith
IsKnown-version (pos (suc zero)) h = (v1, refl)
IsKnown-version (pos (suc (suc zero))) h = (v2, refl)
IsKnown-version (pos (suc (suc (suc zero)))) h = (v3, refl)
IsKnown-version (pos (suc (suc (suc (suc zero))))) h = (v4, refl)
IsKnown-version (pos (suc (suc (suc (suc (suc zero)))))) h = (v5, refl)
IsKnown-version (pos (suc (suc (suc (suc (suc (suc n))))))) h = ground arith

known-is_version : (v : Version) → is_version (number v) ≡ true
unfolding is_version
known-is_version v1 = refl
known-is_version v2 = refl
known-is_version v3 = refl
known-is_version v4 = refl
known-is_version v5 = refl

is_version-accepted :
    (abi : ModuleAbi) (m : ZygiskModule)
    → is_version abi.api_version ≡ true
    → (register_module true (some abi) m).1.abi ≡ some abi
unfolding register_module is_version
is_version-accepted abi m h = ground arith

register_module-abi :
    (abi : ModuleAbi) (id handle entry : ℕ)
    → let m = (register_module true (some abi) (new_module id handle entry)).1 in
      (m.abi ≡ none) ⊎ (m.abi ≡ some abi)
unfolding register_module new_module
register_module-abi abi id handle entry = ground arith

pub valid_iff :
    (m : ZygiskModule)
    → (valid m ≡ true) ↔ (
        (a : ModuleAbi) × (m.abi ≡ some a) × (is_version a.api_version ≡ true) × (has_all a ≡ true))
unfolding valid
valid_iff m = (λ h. go m.abi refl h, λ h. ground arith)
  where
    go :
        (o : Option ModuleAbi)
        → m.abi ≡ o
        → valid m ≡ true
        → (a : ModuleAbi) × (m.abi ≡ some a)
          × (is_version a.api_version ≡ true)
          × (has_all a ≡ true)
    go none e h = absurd (ground arith)
    go (some a) e h = (a, e, ground arith, ground arith)

-- A new module that has registered is valid exactly if its version is one of 1 to 5 and it has set
-- all its pointers.
pub register_module-valid :
    (abi : ModuleAbi) (id handle entry : ℕ)
    → (valid (register_module true (some abi) (new_module id handle entry)).1 ≡ true)
      ↔ (IsKnown abi.api_version × (has_all abi ≡ true))
register_module-valid abi id handle entry = (forward, backward)
  where
    m : ZygiskModule
    m = (register_module true (some abi) (new_module id handle entry)).1

    forward : valid m ≡ true → IsKnown abi.api_version × (has_all abi ≡ true)
    forward h =
        let (a, held, version, all) = (valid_iff m).0 h in
        let same : a ≡ abi = ground (arith, register_module-abi abi id handle entry) in
        (rw same at (IsKnown-version a.api_version version), rw same at all)

    backward : IsKnown abi.api_version × (has_all abi ≡ true) → valid m ≡ true
    backward (known, all) =
        let version : is_version abi.api_version ≡ true = rw known.1 (known-is_version known.0) in
        (valid_iff m).1 (abi, is_version-accepted abi _ version, version, all)
