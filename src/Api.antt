-- ===== src/Api.antt =====
-- The API table of a module: the layouts `api_abi_v1`, `api_abi_v2` and `api_abi_v4` of
-- src/libzygisk/src/module.hpp, and the constructor, `RegisterModuleImpl` and `valid` of
-- ZygiskModule in src/libzygisk/src/module.cpp. The table is a union: the three layouts put their
-- function pointers in the same words, of which `slots` holds those behind the base.
pub mod Layout
use zygisk_magisk_module.Prelude.{
  ℕ, ℤ, pos, negsuc, ◌+◌, Bool, true, false, not, ◌&&◌, Option, none, some, List, [], ◌∷◌, set,
  replicate, leb, if◌then◌else◌,
}
use zygisk_magisk_module.World.{
  ModuleAbi, ApiFn, null, register_module_impl, hook_jni_fn, ctx_plt_hook_register,
  lsplt_register_hook, ctx_plt_hook_exclude, ctx_exempt_fd, ctx_plt_hook_commit, lsplt_commit_hook,
  connect_companion_fn, set_option_fn, get_module_dir_fn, get_flags_fn, ApiTable, ZygiskModule,
}

-- The members of the three layouts.
pub data Member : Type 0 where
  hook_jni_native_methods plt_hook_register plt_hook_exclude exempt_fd plt_hook_commit : Member
  connect_companion set_option get_module_dir get_flags : Member

-- The word of a member of `api_abi_v1`, counted from the end of `api_abi_base`.
abbrev pub v1_offset : Member → Option ℕ
v1_offset hook_jni_native_methods = some 0
v1_offset plt_hook_register = some 1
v1_offset plt_hook_exclude = some 2
v1_offset plt_hook_commit = some 3
v1_offset connect_companion = some 4
v1_offset set_option = some 5
v1_offset other = none

-- `api_abi_v2` extends `api_abi_v1`.
abbrev pub v2_offset : Member → Option ℕ
v2_offset get_module_dir = some 6
v2_offset get_flags = some 7
v2_offset hook_jni_native_methods = v1_offset hook_jni_native_methods
v2_offset plt_hook_register = v1_offset plt_hook_register
v2_offset plt_hook_exclude = v1_offset plt_hook_exclude
v2_offset plt_hook_commit = v1_offset plt_hook_commit
v2_offset connect_companion = v1_offset connect_companion
v2_offset set_option = v1_offset set_option
v2_offset exempt_fd = none

abbrev pub v4_offset : Member → Option ℕ
v4_offset hook_jni_native_methods = some 0
v4_offset plt_hook_register = some 1
v4_offset exempt_fd = some 2
v4_offset plt_hook_commit = some 3
v4_offset connect_companion = some 4
v4_offset set_option = some 5
v4_offset get_module_dir = some 6
v4_offset get_flags = some 7
v4_offset plt_hook_exclude = none

-- An assignment to a member, at its word.
abbrev store : Option ℕ → ApiFn → List ApiFn → List ApiFn
store none f slots = slots
store (some k) f slots = set slots k f

-- `memset(&api, 0, sizeof(api))`
abbrev pub cleared : ApiTable
cleared = record { impl = false; registrar = null; slots = replicate 8 null }

-- The constructor of ZygiskModule.
unfoldable pub new_module : ℕ → ℕ → ℕ → ZygiskModule
new_module id handle entry = record {
  id = id;
  unload = false;
  handle = handle;
  entry = entry;
  api = record { impl = true; registrar = register_module_impl; slots = replicate 8 null };
  abi = none;
}

-- `clearApi`
unfoldable pub clear_api : ZygiskModule → ZygiskModule
clear_api m = record m { api = cleared }

-- `version >= k`
abbrev at_least : ℕ → ℤ → Bool
at_least k (pos n) = leb k n
at_least k (negsuc n) = false

-- `ZYGISK_API_VERSION`
abbrev pub zygisk_api_version : ℕ
zygisk_api_version = 5

-- The three blocks of assignments of `RegisterModuleImpl`.
fill_v1 : List ApiFn → List ApiFn
fill_v1 s =
    let s = store (v1_offset hook_jni_native_methods) hook_jni_fn s in
    let s = store (v1_offset plt_hook_register) ctx_plt_hook_register s in
    let s = store (v1_offset plt_hook_exclude) ctx_plt_hook_exclude s in
    let s = store (v1_offset plt_hook_commit) ctx_plt_hook_commit s in
    let s = store (v1_offset connect_companion) connect_companion_fn s in
    store (v1_offset set_option) set_option_fn s

fill_v2 : List ApiFn → List ApiFn
fill_v2 s =
    let s = store (v2_offset get_module_dir) get_module_dir_fn s in
    store (v2_offset get_flags) get_flags_fn s

fill_v4 : List ApiFn → List ApiFn
fill_v4 s =
    let s = store (v4_offset plt_hook_commit) lsplt_commit_hook s in
    let s = store (v4_offset plt_hook_register) lsplt_register_hook s in
    store (v4_offset exempt_fd) ctx_exempt_fd s

unfoldable pub fill : ℤ → List ApiFn → List ApiFn
unfolding fill_v1 fill_v2 fill_v4
fill version s =
    let s = if at_least 1 version then fill_v1 s else s in
    let s = if at_least 2 version then fill_v2 s else s in
    if at_least 4 version then fill_v4 s else s

-- `RegisterModuleImpl`, called with a table or with null, and with a module or with null. The
-- table that it is called with is that of the module `m`, as `api.base.impl` says.
unfoldable pub register_module : Bool → Option ModuleAbi → ZygiskModule → Bool × ZygiskModule
unfolding fill
register_module false abi m = (false, m)
register_module true none m = (false, m)
register_module true (some abi) m =
    if at_least (zygisk_api_version + 1) abi.api_version then (false, m) else (
      true,
      record m { abi = some abi; api = record m.api { slots = fill abi.api_version m.api.slots } },
    )

-- `valid`: cases 1 to 5 of the switch, with every pointer set.
abbrev pub has_all : ModuleAbi → Bool
has_all a =
    a.impl
    && (a.pre_app_specialize
        && (a.post_app_specialize && (a.pre_server_specialize && a.post_server_specialize)))

-- The cases of the switch.
unfoldable pub is_version : ℤ → Bool
is_version version = at_least 1 version && not (at_least 6 version)

unfoldable pub valid : ZygiskModule → Bool
unfolding is_version
valid m = elim m.abi [
  | none ↦ false
  | some a ↦ if is_version a.api_version then has_all a else false
]
