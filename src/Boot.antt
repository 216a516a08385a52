-- ===== src/Boot.antt =====
-- How the library comes into a process and gets on: the native bridge functions of
-- src/libzygisk/src/entry.cpp, and the replacements of `dlclose` and `strdup` in
-- src/libzygisk/src/hook.cpp; and the order in which these, the other hooked functions and the
-- replacements of the JNI methods may be called. An event is a call of one of the library's functions by the code around
-- it. `none` is undefined behaviour: `g_hook`, or what it points to, is null or dangling where it
-- is read.
pub mod Laws
pub mod Callbacks
pub mod Start
pub mod Progress
pub mod Replaced
use zygisk_magisk_module.Prelude.{
  ◌≡◌, ℕ, ℤ, pos, Bool, true, false, Option, none, some, List, [], ◌∷◌, ◌==◌, if◌then◌else◌,
}
use zygisk_magisk_module.World.{
  Text, text, strdup_fn, LibCall, Call, original, Env, Pointer, nullptr, dangling, live,
  HookContext, World,
}
use zygisk_magisk_module.Ipc.Bytes.{emit}
use zygisk_magisk_module.Ipc.Connect.{zygisk_disconnect}
use zygisk_magisk_module.Plt.{eq_text}
use zygisk_magisk_module.Jni.Zygote.{hook_zygote_jni}
use zygisk_magisk_module.Hook.{hook_entry, lib_call, new_attr_destroy}
use zygisk_magisk_module.JniMethods.{JniArgs, Method}
use zygisk_magisk_module.Wrappers.{fork_app, fork_server, specialize_app}
use zygisk_magisk_module.Bridge.{post_native_bridge_load}

-- kZygoteInit
abbrev pub zygote_init : Text
zygote_init = text "com.android.internal.os.ZygoteInit"

-- The functions of NativeBridgeCallbacks that are set.
unfoldable pub is_compatible : Env → World → Bool × World
is_compatible env w = (false, hook_entry env w)

-- It gives null, in place of a library's handle.
unfoldable load_library : Text → ℕ
load_library path = 0

pub on_unload : World → World
on_unload w = zygisk_disconnect w

-- `new_dlclose`: nothing is closed.
unfoldable pub new_dlclose : Env → ℕ → World → Option (ℤ × World)
new_dlclose env handle w = elim w.g_hook [
  | nullptr ↦ none
  | dangling ↦ none
  | live h ↦
      let (h', t) = post_native_bridge_load env handle h w.trace in
      some (pos 0, if h.self_handle == 0 then record w { g_hook = live h'; trace = t } else w)
]

abbrev hook_zygote : Env → World → Option World
hook_zygote env w = elim w.g_hook [
  | nullptr ↦ none
  | dangling ↦ none
  | live h ↦ elim (hook_zygote_jni env h w.trace) [
    | none ↦ none
    | some r ↦ some (record w { g_hook = live r.0; trace = r.1 })
  ]
]

-- `new_strdup`
pub new_strdup : Env → Text → World → Option World
new_strdup env str w = elim (if eq_text zygote_init str then hook_zygote env w else some w) [
  | none ↦ none
  | some v ↦ some (emit (original strdup_fn) v)
]

-- A call of a function of the library by the code around it; the replacements of the JNI methods run
-- the constructor and the destructor of the context.
pub data Event : Type 0 where
  checks_compatible unloads_bridge destroys_attr : Event
  loads_library : Text → Event
  closes_library : ℕ → Event
  copies_string : Text → Event
  calls_hooked : LibCall → Event
  forks_app forks_server specializes_app : ℕ → Method → JniArgs → Event

unfoldable pub handle_event : Env → Event → World → Option World
handle_event env checks_compatible w = some (is_compatible env w).1
handle_event env unloads_bridge w = some (on_unload w)
handle_event env destroys_attr w = new_attr_destroy env w
handle_event env (loads_library path) w = some w
handle_event env (closes_library handle) w = elim (new_dlclose env handle w) [
  | none ↦ none
  | some r ↦ some r.1
]
handle_event env (copies_string str) w = new_strdup env str w
handle_event env (calls_hooked c) w = some (lib_call env c w)
handle_event env (forks_app fd_max m j) w = elim (fork_app env fd_max m j w) [
  | none ↦ none
  | some r ↦ some r.1
]
handle_event env (forks_server fd_max m j) w = elim (fork_server env fd_max m j w) [
  | none ↦ none
  | some r ↦ some r.1
]
handle_event env (specializes_app fd_max m j) w = specialize_app env fd_max m j w

-- The worlds that a sequence of events leads to.
pub data Reaches (env : Env) : World → World → Type 0 where
  stays : {w : World} → Reaches env w w
  goes :
      {u v w : World} (e : Event)
      → Reaches env u v
      → handle_event env e v ≡ some w
      → Reaches env u w
