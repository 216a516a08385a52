-- ===== src/Lib.antt =====
-- Zygisk as a standalone Magisk module: the library that is loaded into Android's zygote, takes over
-- the methods by which zygote forks and specialises processes, and lets modules run in them.
--
-- The parts, in src/libzygisk/src of the repository but for the daemon, and the files that model them:
-- * zygote calls one of three JNI methods for a new process. Each entry of the tables in
--   jni_hooks.hpp (JniMethods) replaces one variant of a method: it makes a ZygiskContext, calls its
--   `_pre` function, the original method, and its `_post` function (Wrappers).
-- * the specialisation functions of module.cpp and the constructor of the context in hook.cpp
--   (Lifecycle) fork, ask the daemon about the process, load and call modules, and clean up
--   descriptors.
-- * the connection to the daemon, in ipc_client.cpp, with its circuit breaker (Ipc), and what
--   module.cpp sends over it for a module (Companion).
-- * the descriptors that a child keeps: `fork_pre`, `sanitize_fds`, `exempt_fd` (Fds).
-- * the search for libraries under /data/adb/modules: `get_module_info` (Scan).
-- * the modules: `run_modules_pre`, `run_modules_post`, the version dispatch and the API functions
--   (Modules), the API table that a module is handed (Api), its hooks by regular expression (Plt).
-- * HookContext, the hooked functions and the destructor of the context, in hook.cpp (Hook).
-- * the hooking of JNI methods, in hook.cpp, for the class of zygote and for modules (Jni), the search
--   for the native bridge and the runtime callbacks (Bridge), and how the library is started, by
--   entry.cpp and the hooks of `dlclose` and `strdup` (Boot).
-- * the daemon, in zygiskd/src (Daemon): what it reads about a process, its response, its loop; and
--   the client's requests against it.
-- * the words of common/consts.hpp, and the flags of module.hpp (Flags).
-- World holds the state of all parts and what the code asks of its surroundings; Prelude what the
-- files share. Functions keep the name that they have in the source, in lower case, but for
-- `connectCompanion` (companion_fd), `getModuleDir` (module_dir_fd), `setOption` (apply_option),
-- `getFlags` (visible_flags), `RegisterModuleImpl` (register_module), HookContext::register_hook
-- (register_fn), the `hook_jni_methods` of a class (hook_class_methods), entry.cpp's `on_load`
-- (load_library) and pthread_attr_destroy (new_attr_destroy). Examples runs the theorems on a concrete
-- phone.
--
-- State is passed explicitly. Each call that leaves the library is put on a trace, the newest
-- first; its answer is a function of the trace before it, a field of Env, so that a statement for
-- every Env holds whatever the kernel, the daemon, the Java VM, lsplt and the code of the modules
-- do. A module acts through the API table only: a call takes effect if the table holds the
-- function. `none` as the result of a state function is undefined behaviour of the C++ code; inside an API
-- function, which has no such result, it is the call bad_pointer on the trace.
-- Integers are ℤ or ℕ as in the source, words are bit patterns below 2 ^ 32 with wrap-around written
-- out. Fuel: the loop of `zygisk_connect` has six steps of its delay; `read_all` and `xxread` have
-- one step for each byte that is asked for, since a round that goes on has read one; the attempts
-- that a signal interrupts are counted in the answer of `read`, so that they end.
--
-- An original JNI method may call any hooked function but `pthread_attr_destroy`, `strdup` with the
-- name of ZygoteInit and the first `dlclose`, which belong to the start and the end of the library
-- (Boot).
--
-- Not modelled: the functions that a module gets back from `hookJniNativeMethods`, what a module
-- writes into the arguments of a method, the process name, logging and the diagnostics of debug
-- builds; lsplt and xDL, which are copies of other projects and parameters here; the command line
-- that the daemon logs; and the scripts of the package. RegisterNatives and the runtime callbacks are parameters too:
-- Jni.Vm states what the proofs rely on of them. So is the kernel: Ipc.Bytes.Stream states what they
-- rely on of a socket. The library runs on one thread here, so that its
-- one lock is always free.
pub mod Prelude
pub mod Flags
pub mod World
pub mod Trace
pub mod Ipc
pub mod Plt
pub mod Daemon
pub mod Fds
pub mod Companion
pub mod Api
pub mod Modules
pub mod Scan
pub mod Jni
pub mod Bridge
pub mod Boot
pub mod Lifecycle
pub mod Hook
pub mod JniMethods
pub mod Wrappers
pub mod Examples
