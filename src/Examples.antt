-- ===== src/Examples.antt =====
-- A concrete phone for the examples: the answers of its system, its daemon and its one module, and
-- the states from which the examples start.
pub mod Daemon
pub mod Descriptors
pub mod Libraries
pub mod Processes
pub mod Startup
pub mod Kernel
pub mod Server
pub mod Zygote
use zygisk_magisk_module.Prelude.{
  ℕ, ℤ, pos, minus_one, Bool, true, false, Option, none, some, List, [], ◌∷◌, length, ltb, map,
  if◌then◌else◌,
}
use zygisk_magisk_module.Flags.{dlclose_module_library}
use zygisk_magisk_module.World.{
  Text, text, ModuleAbi, ApiCall, register_module, set_option, Callback, on_load, pre_app, post_app,
  pre_server, post_server, LibCall, forks, unshares, Call, socket, connect, fork, write, open_file,
  Dir, MapInfo, StackFrame, NativeMethod, register_natives, aarch64, Env, ZygiskModule,
  AppSpecializeArgs, app, Context, HookContext, live, World, dlclose_fn,
}
use zygisk_magisk_module.Ipc.Bytes.{encode_response}
use zygisk_magisk_module.Plt.{eq_text}
use zygisk_magisk_module.Jni.Zygote.{fork_app_name, fork_server_name}
use zygisk_magisk_module.Jni.Vm.{resolved, write_one}
use zygisk_magisk_module.Api.{new_module}
use zygisk_magisk_module.Fds.{proc_self_fd}
use zygisk_magisk_module.Scan.{modules_dir, zygisk_dir}
use zygisk_magisk_module.JniMethods.{JniArgs, Method}

-- `fork` gives the number; a socket has descriptor 3, and the library 6.
abbrev answer_of : ℤ → Call → ℤ
answer_of pid socket = pos 3
answer_of pid (connect fd) = pos 0
answer_of pid fork = pid
answer_of pid (write fd bytes) = pos 8
answer_of pid (open_file path) = pos 6
answer_of pid c = pos 0

abbrev pub before_fork : Dir
before_fork = record {
  dirfd = pos 4;
  entries =
      record { is_dir = true; name = text "." }
      ∷ record { is_dir = false; name = text "2" }
      ∷ record { is_dir = false; name = text "4" }
      ∷ [];
}

-- A child has opened 5 since.
abbrev pub after_specialize : Dir
after_specialize = record {
  dirfd = pos 4;
  entries =
      record { is_dir = false; name = text "2" }
      ∷ record { is_dir = false; name = text "4" }
      ∷ record { is_dir = false; name = text "5" }
      ∷ [];
}

-- One module, with one library and a file that is none.
abbrev modules : Dir
modules = record {
  dirfd = pos 4;
  entries =
      record { is_dir = true; name = text ".." }
      ∷ record { is_dir = true; name = text "shamiko" }
      ∷ [];
}

abbrev libraries : Dir
libraries = record {
  dirfd = pos 5;
  entries =
      record { is_dir = false; name = text "arm64-v8a.so" }
      ∷ record { is_dir = false; name = text "unloaded" }
      ∷ [];
}

abbrev directory_at : List Call → Text → Option Dir
directory_at t path =
    if eq_text path proc_self_fd
    then some (if ltb (length t) 4 then before_fork else after_specialize)
    else if eq_text path modules_dir
    then some modules
    else if eq_text path (zygisk_dir (text "shamiko"))
    then some libraries
    else none

abbrev pub abi : ModuleAbi
abi = record {
  api_version = pos 4;
  impl = true;
  pre_app_specialize = true;
  post_app_specialize = true;
  pre_server_specialize = true;
  post_server_specialize = true;
}

-- The module registers, and then asks to be unloaded.
abbrev requests_of : Callback → List ApiCall
requests_of on_load = register_module (some abi) ∷ []
requests_of pre_app = set_option dlclose_module_library ∷ []
requests_of post_app = []
requests_of pre_server = []
requests_of post_server = []

abbrev pub art : MapInfo
art = record {
  start = 0x1000;
  end = 0x2000;
  perms = 1;
  is_private = true;
  offset = 0;
  dev = 7;
  inode = 70;
  path = text "/lib64/libart.so";
}

-- Its data.
abbrev art_data : MapInfo
art_data = record art { start = 0x3000; end = 0x4000; perms = 3 }

-- The frame of `LoadNativeBridge`, with a pointer into these data in each register.
abbrev pub bridge_frame : StackFrame
bridge_frame = record {
  region_start = 0x5000;
  library = some (text "/system/lib64/libnativebridge.so");
  register = λ n. 0x3008;
  memory = λ a. 0;
}

-- The class of the zygote, with one method of two.
abbrev pub old_signature : Text
old_signature =
    text "(II[II[[IILjava/lang/String;Ljava/lang/String;[ILjava/lang/String;Ljava/lang/String;)I"

abbrev pub new_signature : Text
new_signature =
    text "(II[II[[IILjava/lang/String;Ljava/lang/String;[I[ILjava/lang/String;Ljava/lang/String;)I"

abbrev pub zygote_shorty : Text → Text → Option Text
zygote_shorty name signature =
    if eq_text signature new_signature then some (text "IIILILILLLLLL") else none

abbrev pub zygote_natives : List NativeMethod
zygote_natives =
    record { name = fork_app_name; signature = text "IIILILILLLLLL"; fn = 100 }
    ∷ record { name = fork_server_name; signature = text "IIILILJJ"; fn = 101 }
    ∷ []

abbrev pub our_address : Text → Text → ℕ
our_address name signature = if eq_text signature new_signature then 202 else 201

abbrev pub our_table : List NativeMethod
our_table =
    record { name = fork_app_name; signature = old_signature; fn = 201 }
    ∷ record { name = fork_app_name; signature = new_signature; fn = 202 }
    ∷ []

-- The class lists what was registered last.
abbrev pub listing : List Call → List NativeMethod
listing [] = zygote_natives
listing (register_natives clazz m ∷ t) = map (write_one zygote_shorty m) (listing t)
listing (c ∷ t) = listing t

-- The system, where `fork` gives a number and the daemon answers each request with flags.
abbrev pub phone : ℤ → ℕ → Env
phone pid flags = record {
  int = λ t c. answer_of pid c;
  reading = λ t fd n. record {
    interrupted = 0;
    bytes = some (encode_response (record { code = 0; uid = 10001; flags = flags }));
  };
  receiving = λ t fd. record { result = pos 1; control = some (true, pos 5) };
  directory = directory_at;
  regular = λ t fd. some true;
  loading = λ t fd. 0xb000;
  symbol = λ t handle. 0xb010;
  maps = λ t. art ∷ art_data ∷ [];
  registers = λ t c. true;
  commits = λ t. true;
  backed_up = λ t f. true;
  regcomp = λ expression. some 1;
  regexec = λ re path. true;
  allocates = λ t. true;
  behaviour = λ t id cb. requests_of cb;
  process_id = 77;
  original_calls = λ t. forks ∷ unshares true ∷ [];
  address = λ t c. 5;
  native_methods = λ t clazz. listing t;
  registers_natives = λ t clazz m. resolved zygote_shorty m;
  replacement = our_address;
  frames = λ t. bridge_frame ∷ [];
  bridge_property = λ t. text "libzygisk.solibhoudini.so";
  arch = aarch64;
  main_thread = λ t. true;
  lp64 = true;
  garbage = [];
}

abbrev pub jni_args : JniArgs
jni_args = record {
  uid = pos 10001;
  gid = pos 10001;
  gids = 0;
  runtime_flags = pos 0;
  rlimits = 0;
  mount_external = pos 1;
  se_info = 1;
  nice_name = 2;
  instruction_set = 3;
  app_data_dir = 4;
  fds_to_ignore = some (pos 2 ∷ []);
  is_child_zygote = false;
  is_top_app = true;
  pkg_data_info_list = 0;
  whitelisted_data_info_list = 0;
  mount_data_dirs = false;
  mount_storage_dirs = false;
  mount_sysprop_overrides = false;
  permitted_capabilities = pos 0;
  effective_capabilities = pos 0;
}

abbrev phone_args : AppSpecializeArgs
phone_args = record {
  uid = pos 10001;
  gid = pos 10001;
  gids = 0;
  runtime_flags = pos 0;
  rlimits = 0;
  mount_external = pos 1;
  se_info = 1;
  nice_name = 2;
  instruction_set = 3;
  app_data_dir = 4;
  fds_to_ignore = some (some (pos 2 ∷ []));
  is_child_zygote = none;
  is_top_app = none;
  pkg_data_info_list = none;
  whitelisted_data_info_list = none;
  mount_data_dirs = none;
  mount_storage_dirs = none;
  mount_sysprop_overrides = none;
}

-- The replacement of a method that notes the arguments of the oldest signature with `fds_to_ignore`.
abbrev pub method : Method
method = record {
  name = text "nativeForkAndSpecialize";
  signature = new_signature;
  noted = λ j. app phone_args;
}

-- A registered module.
abbrev pub loaded : ZygiskModule
loaded = record (new_module 0 0xb000 0xb010) { abi = some abi }

-- A context whose process has a number and flags, and whose limit of descriptors is 8.
abbrev pub context : ℤ → ℕ → List ZygiskModule → Context
context pid flags modules = record {
  args = app phone_args;
  modules = modules;
  pid = pid;
  flags = flags;
  info_flags = 0;
  allowed_fds = false ∷ false ∷ false ∷ false ∷ false ∷ false ∷ false ∷ false ∷ [];
  exempted_fds = [];
  register_info = record { regex = 1; symbol = text "open"; callback = 9 } ∷ [];
  ignore_info = [];
}

abbrev pub hook : HookContext
hook = record {
  plt_backup = record { dev = 7; inode = 70; symbol = text "dlclose"; old = dlclose_fn } ∷ [];
  runtime_callbacks = 1;
  self_handle = 0xa000;
  should_unmap = true;
  fork_app_methods = our_table;
  specialize_app_methods = [];
  fork_server_methods = [];
}

abbrev pub state : ℤ → ℕ → List ZygiskModule → World
state pid flags modules = record {
  g_sock = minus_one;
  g_available = true;
  g_hook = live hook;
  g_ctx = true;
  ctx = context pid flags modules;
  trace = [];
}
