-- ===== src/World.antt =====
-- The state that the library keeps, and what it asks of the code around it: the structs of
-- src/libzygisk/src/module.hpp and api.hpp, and the globals of ipc_client.cpp and hook.cpp.
-- Every call that leaves the library is put on a trace, newest first. `Env` answers each call as
-- an arbitrary function of the calls before it, so that a statement for every `Env` is one for
-- every behaviour of the system, of the daemon, of the Java VM and of the loaded modules.
-- An object in C++ that is null or not is an `Option`; a pointer that the code only compares with
-- null and passes on is a number, 0 for null. Text is its list of bytes.
mod Surroundings
pub use Surroundings.*
use zygisk_magisk_module.Prelude.{ℕ, ℤ, Bool, Option, List}

-- A function in an API table.
pub data ApiFn : Type 0 where
  null : ApiFn
  register_module_impl hook_jni_fn ctx_plt_hook_register lsplt_register_hook : ApiFn
  ctx_plt_hook_exclude ctx_exempt_fd ctx_plt_hook_commit lsplt_commit_hook : ApiFn
  connect_companion_fn set_option_fn get_module_dir_fn get_flags_fn : ApiFn

-- `ApiTable`, a union: the words of the longest member, `v4`, from its start. The first two are
-- `base.impl` (whether it is set) and `base.registerModule`.
pub record ApiTable : Type 0 where
  pub impl : Bool
  pub registrar : ApiFn
  pub slots : List ApiFn

pub record ZygiskModule : Type 0 where
  pub id : ℕ
  pub unload : Bool
  pub handle : ℕ
  pub entry : ℕ
  pub api : ApiTable
  -- `mod`: the struct that the module registered, or null.
  pub abi : Option ModuleAbi

-- `AppSpecializeArgs_v5` with its base: values of the JNI call, references as numbers, and the
-- pointers to arguments that not every version of the call has. `fds_to_ignore` points to a
-- reference to an int array, which may be null.
pub record AppSpecializeArgs : Type 0 where
  pub uid : ℤ
  pub gid : ℤ
  pub gids : ℕ
  pub runtime_flags : ℤ
  pub rlimits : ℕ
  pub mount_external : ℤ
  pub se_info : ℕ
  pub nice_name : ℕ
  pub instruction_set : ℕ
  pub app_data_dir : ℕ
  pub fds_to_ignore : Option (Option (List ℤ))
  pub is_child_zygote : Option Bool
  pub is_top_app : Option Bool
  pub pkg_data_info_list : Option ℕ
  pub whitelisted_data_info_list : Option ℕ
  pub mount_data_dirs : Option Bool
  pub mount_storage_dirs : Option Bool
  pub mount_sysprop_overrides : Option Bool

-- `ServerSpecializeArgs_v1`
pub record ServerSpecializeArgs : Type 0 where
  pub uid : ℤ
  pub gid : ℤ
  pub gids : ℕ
  pub runtime_flags : ℤ
  pub permitted_capabilities : ℤ
  pub effective_capabilities : ℤ

-- The union `args` of a context.
pub data Args : Type 0 where
  app : AppSpecializeArgs → Args
  server : ServerSpecializeArgs → Args

pub record RegisterInfo : Type 0 where
  pub regex : ℕ
  pub symbol : Text
  pub callback : ℕ

pub record IgnoreInfo : Type 0 where
  pub regex : ℕ
  pub symbol : Text

pub record Context : Type 0 where
  pub args : Args
  pub modules : List ZygiskModule
  pub pid : ℤ
  pub flags : ℕ
  pub info_flags : ℕ
  pub allowed_fds : List Bool
  pub exempted_fds : List ℤ
  pub register_info : List RegisterInfo
  pub ignore_info : List IgnoreInfo

-- An entry of `plt_backup`; the fourth part, a pointer to the variable that holds the original
-- function, is that function's name.
pub record PltBackup : Type 0 where
  pub dev : ℕ
  pub inode : ℕ
  pub symbol : Text
  pub old : HookedFn

pub record HookContext : Type 0 where
  pub plt_backup : List PltBackup
  pub runtime_callbacks : ℕ
  pub self_handle : ℕ
  pub should_unmap : Bool
  -- The tables of JniHookDefinitions, whose functions change when a method is hooked.
  pub fork_app_methods : List NativeMethod
  pub specialize_app_methods : List NativeMethod
  pub fork_server_methods : List NativeMethod

-- A pointer to an object that is created once and deleted once.
pub data Pointer {ℓ} (A : Type ℓ) : Type ℓ where
  nullptr dangling : Pointer A
  live : A → Pointer A

-- The process: `g_sock` and `g_available` of ipc_client.cpp, `g_hook` and `g_ctx` of hook.cpp.
-- There is at most one ZygiskContext: `ctx` is that object, and `g_ctx` says whether the global
-- points to it or is null.
pub record World : Type 0 where
  pub g_sock : ℤ
  pub g_available : Bool
  pub g_hook : Pointer HookContext
  pub g_ctx : Bool
  pub ctx : Context
  pub trace : List Call
