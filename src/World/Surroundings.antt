-- ===== src/World/Surroundings.antt =====
-- What the code asks of its surroundings: the calls that leave the library, and `Env`, which answers
-- them; the structs and enums of src/libzygisk/src/module.hpp and api.hpp that these are made of.
use Prim.Native.Char.{code}
use Prim.Native.String.{String}
use zygisk_magisk_module.Prelude.{ℕ, ℤ, Bool, Option, List, [], ◌∷◌}
use zygisk_magisk_module.Flags.{ModuleOption}

abbrev pub Text : Type 0
Text = List ℕ

-- The bytes of a literal.
abbrev pub text : String → Text
text String.[] = []
text (String.◌∷◌ c s) = code c ∷ text s

-- `module_abi_v1`: the number that a module asks for, and which of its pointers are set.
pub record ModuleAbi : Type 0 where
  pub api_version : ℤ
  pub impl : Bool
  pub pre_app_specialize : Bool
  pub post_app_specialize : Bool
  pub pre_server_specialize : Bool
  pub post_server_specialize : Bool

-- JNINativeMethod; the function is an address, 0 for null.
pub record NativeMethod : Type 0 where
  pub name : Text
  pub signature : Text
  pub fn : ℕ

-- What a module can ask of Zygisk while its code runs: one call through its API table, with the
-- arguments. `register_module` passes the module's ABI struct, or null.
pub data ApiCall : Type 0 where
  register_module : Option ModuleAbi → ApiCall
  -- Whether a JNIEnv is given, the class, and the methods.
  hook_jni_native_methods : Bool → Option Text → List NativeMethod → ApiCall
  plt_hook_register : Option Text → Option Text → ℕ → ApiCall
  plt_hook_register_v4 : ℕ → ℕ → Option Text → ℕ → ApiCall
  plt_hook_exclude : Option Text → Option Text → ApiCall
  exempt_fd : ℤ → ApiCall
  plt_hook_commit : ApiCall
  connect_companion : ApiCall
  set_option : ModuleOption → ApiCall
  get_module_dir : ApiCall
  get_flags : ApiCall

-- The five functions of a module that Zygisk calls.
pub data Callback : Type 0 where
  on_load pre_app post_app pre_server post_server : Callback

-- Which argument struct a module is handed.
pub data ArgsView : Type 0 where
  no_args app_v1 app_v5 server_v1 : ArgsView

-- The functions that HookContext replaces in other libraries.
pub data HookedFn : Type 0 where
  dlclose_fn fork_fn unshare_fn setcontext_fn strdup_fn log_close_fn attr_destroy_fn : HookedFn

-- A call of a hooked function by the code around it, in a process in which the library has been
-- started: `strdup` of another string than the name of ZygoteInit, and `dlclose` after its first
-- call; these two and `pthread_attr_destroy` are handled as a whole in Boot. Of `unshare`, whether
-- CLONE_NEWNS is in its flags.
pub data LibCall : Type 0 where
  forks closes_log sets_context copies closes : LibCall
  unshares : Bool → LibCall

-- A function pointer that is put in a PLT entry: one of ours, one of a module's, or an original.
pub data Target : Type 0 where
  new_func old_func : HookedFn → Target
  module_func : ℕ → Target

-- A call that leaves the library.
pub data Call : Type 0 where
  socket : Call
  connect close : ℤ → Call
  usleep : ℕ → Call
  write : ℤ → List ℕ → Call
  read : ℤ → ℕ → Call
  recvmsg fstat dlopen : ℤ → Call
  sigprocmask_block sigprocmask_unblock fork setenv_enabled : Call
  opendir open_file umount : Text → Call
  dlsym dlclose : ℕ → Call
  -- Module number, callback, the arguments' layout.
  enter_module : ℕ → Callback → ArgsView → Call
  new_int_array : List ℤ → Call
  register_hook : ℕ → ℕ → Text → Target → Call
  commit_hook scan_maps : Call
  -- An original function behind a hook.
  original : HookedFn → Call
  -- JNI: a class is an address, 0 for null.
  find_class : Text → Call
  get_native_methods : ℕ → Call
  register_natives : ℕ → NativeMethod → Call
  exception_clear : Call
  -- The search for the Java VM.
  find_vms : Call
  dlopen_path : Text → Call
  find_vms_in : ℕ → Call
  get_created_vms get_env : ℕ → Call
  -- A read through `g_hook`, which is null or dangling: undefined behaviour from there on.
  bad_pointer : Call
  -- The native bridge.
  backtrace get_property : Call
  load_native_bridge : ℕ → Text → ℕ → Call

-- The answer to a `read`: how often it is interrupted by a signal before it returns, and then the
-- bytes it gives (none at the end of the stream), or an error.
pub record ReadAnswer : Type 0 where
  pub interrupted : ℕ
  pub bytes : Option (List ℕ)

-- The answer to a `recvmsg`: its result, and the first control message, if there is one: whether
-- its type is SCM_RIGHTS, and the number in it.
pub record RecvAnswer : Type 0 where
  pub result : ℤ
  pub control : Option (Bool × ℤ)

-- `d_type == DT_DIR` and `d_name`.
pub record Dirent : Type 0 where
  pub is_dir : Bool
  pub name : Text

-- A directory stream: `dirfd` and what `readdir` gives.
pub record Dir : Type 0 where
  pub dirfd : ℤ
  pub entries : List Dirent

-- lsplt::MapInfo
pub record MapInfo : Type 0 where
  pub start : ℕ
  pub end : ℕ
  pub perms : ℕ
  pub is_private : Bool
  pub offset : ℕ
  pub dev : ℕ
  pub inode : ℕ
  pub path : Text

-- A frame of the native call stack: where its function starts, the path of the library that this
-- address belongs to, if there is one, the general registers, and the words of the stack.
pub record StackFrame : Type 0 where
  pub region_start : ℕ
  pub library : Option Text
  pub register : ℕ → ℕ
  pub memory : ℕ → ℕ

-- The processor that the library is built for.
pub data Arch : Type 0 where
  aarch64 arm i386 x86_64 riscv : Arch

pub record Env : Type 0 where
  -- System calls that return an int.
  pub int : List Call → Call → ℤ
  pub reading : List Call → ℤ → ℕ → ReadAnswer
  pub receiving : List Call → ℤ → RecvAnswer
  pub directory : List Call → Text → Option Dir
  -- `fstat`: none if it fails, else whether the file is regular.
  pub regular : List Call → ℤ → Option Bool
  -- `android_dlopen_ext` and `dlsym`.
  pub loading : List Call → ℤ → ℕ
  pub symbol : List Call → ℕ → ℕ
  -- lsplt: `MapInfo::Scan`, `RegisterHook`, `CommitHook`, and whether the backup of a hook is set.
  pub maps : List Call → List MapInfo
  pub registers : List Call → Call → Bool
  pub commits : List Call → Bool
  pub backed_up : List Call → HookedFn → Bool
  -- POSIX regular expressions: the compiled form, and whether it matches.
  pub regcomp : Text → Option ℕ
  pub regexec : ℕ → Text → Bool
  -- Whether the VM could allocate an int array.
  pub allocates : List Call → Bool
  -- What the code of a module asks of Zygisk during a callback.
  pub behaviour : List Call → ℕ → Callback → List ApiCall
  -- `getpid`, as a bit pattern.
  pub process_id : ℕ
  -- What the original JNI function calls, of the functions that are hooked.
  pub original_calls : List Call → List LibCall
  -- A call that returns an address, 0 for null.
  pub address : List Call → Call → ℕ
  -- The native methods of a class, as the runtime callbacks list them; and whether RegisterNatives
  -- of one method succeeds, with no exception pending after it.
  pub native_methods : List Call → ℕ → List NativeMethod
  pub registers_natives : List Call → ℕ → NativeMethod → Bool
  -- The address of our replacement of a JNI method with a name and a signature.
  pub replacement : Text → Text → ℕ
  -- The frames of the call stack, the innermost first; the system property that names the native
  -- bridge; and the processor.
  pub frames : List Call → List StackFrame
  pub bridge_property : List Call → Text
  pub arch : Arch
  -- `getpid() == gettid()`: the caller is the main thread.
  pub main_thread : List Call → Bool
  -- Whether the build is for a 64-bit ABI.
  pub lp64 : Bool
  -- What an uninitialised buffer holds.
  pub garbage : List ℕ
