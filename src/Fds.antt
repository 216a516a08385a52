-- ===== src/Fds.antt =====
-- File descriptors across a fork: `exempt_fd`, `can_exempt_fd`, `fork_pre`, `fork_post` and
-- `sanitize_fds` of src/libzygisk/src/module.cpp. `none` is undefined behaviour: a null directory
-- stream that is read, or a write outside `allowed_fds`.
pub mod Parse
pub mod Sanitize
pub mod Fork
pub mod Exempt
pub mod Frame
use zygisk_magisk_module.Prelude.{
  ◌≡◌, ℕ, ℤ, pos, negsuc, is_neg, nonneg, le_zero, eq_ℤ, ◌+◌, ◌*◌, ◌-◌, ◌%◌, ◌^◌, signed32, Bool,
  true, false, not, ◌&&◌, ◌||◌, Option, none, some, List, [], ◌∷◌, ◌++◌, length, set, get_or, ltb,
  leb, if◌then◌else◌,
}
use zygisk_magisk_module.Flags.{has, post_specialize, skip_close_log_pipe, app_fork_and_specialize}
use zygisk_magisk_module.World.{
  Text, text, Call, close, fork, sigprocmask_block, sigprocmask_unblock, fork_fn, opendir,
  new_int_array, Dirent, Dir, Env, AppSpecializeArgs, Args, app, server, Context, World,
}
use zygisk_magisk_module.Ipc.Bytes.{emit}
use zygisk_magisk_module.Plt.{is_empty}

-- The loop of `parse_int`, on the 32-bit pattern of `v`: an overflow, which C leaves undefined,
-- wraps.
unfoldable pub parse_loop : ℕ → Text → ℕ
parse_loop v [] = v
parse_loop v (c ∷ s) =
    let rest = parse_loop ((v * 10 + (c - 48)) % 2 ^ 32) s in
    if leb 48 c && leb c 57 then rest else v

unfoldable pub parse_int : Text → ℤ
unfolding parse_loop
parse_int s = signed32 (parse_loop 0 s)

-- `pid <= 0`
abbrev pub is_child : Context → Bool
is_child c = le_zero c.pid

-- `args.app->fds_to_ignore`, in a context of an app.
abbrev pub fds_to_ignore : Args → Option (Option (List ℤ))
fds_to_ignore (app a) = a.fds_to_ignore
fds_to_ignore (server a) = none

-- `*args.app->fds_to_ignore = arr`
abbrev pub set_fds_to_ignore : List ℤ → Args → Args
set_fds_to_ignore arr (app a) = app (record a { fds_to_ignore = some (some arr) })
set_fds_to_ignore arr (server a) = server a

abbrev is_set {ℓ} : {A : Type ℓ} → Option A → Bool
is_set none = false
is_set (some a) = true

unfoldable pub can_exempt_fd : Context → Bool
can_exempt_fd c = has c.flags app_fork_and_specialize && is_set (fds_to_ignore c.args)

unfoldable pub exempt_fd : ℤ → Context → Bool × Context
unfolding can_exempt_fd
exempt_fd fd c =
    if has c.flags post_specialize || has c.flags skip_close_log_pipe
    then (true, c)
    else if not (can_exempt_fd c)
    then (false, c)
    else (true, record c { exempted_fds = c.exempted_fds ++ fd ∷ [] })

-- `fd >= 0 && fd < (int)allowed_fds.size()`
abbrev pub in_range : ℤ → List Bool → Bool
in_range (pos n) allowed = ltb n (length allowed)
in_range (negsuc n) allowed = false

-- `allowed_fds[fd]`, in range.
abbrev pub is_allowed : ℤ → List Bool → Bool
is_allowed (pos n) allowed = get_or allowed n false
is_allowed (negsuc n) allowed = false

-- `allowed_fds[fd] = b`, in range.
abbrev pub assign : ℤ → Bool → List Bool → List Bool
assign (pos n) b allowed = set allowed n b
assign (negsuc n) b allowed = allowed

-- `for (int fd : fds) if (fd >= 0 && fd < size) allowed_fds[fd] = true;`
unfoldable pub allow_all : List ℤ → List Bool → List Bool
allow_all [] allowed = allowed
allow_all (fd ∷ fds) allowed =
    allow_all fds (if in_range fd allowed then assign fd true allowed else allowed)

abbrev pub with_allowed : (List Bool → List Bool) → World → World
with_allowed f w = record w { ctx = record w.ctx { allowed_fds = f w.ctx.allowed_fds } }

-- The closure `update`, and the copy of the old array into the new one: on success the array is
-- the old one followed by the exempted descriptors, and these are allowed.
update_fds : Env → List ℤ → World → World
update_fds env old w =
    let arr = old ++ w.ctx.exempted_fds in
    if env.allocates w.trace
    then record w {
      ctx = record w.ctx {
        allowed_fds = allow_all w.ctx.exempted_fds w.ctx.allowed_fds;
        args = set_fds_to_ignore arr w.ctx.args;
      };
      trace = new_int_array arr ∷ w.trace;
    }
    else w

-- The first half of `sanitize_fds`.
unfoldable pub exempt_all : Env → World → World
unfolding update_fds
exempt_all env w =
    if can_exempt_fd w.ctx && not (is_empty w.ctx.exempted_fds)
    then (elim (fds_to_ignore w.ctx.args) [
      | some (some old) ↦ update_fds env old (with_allowed (allow_all old) w)
      | some none ↦ update_fds env [] w
      | none ↦ w
    ])
    else w

abbrev pub proc_self_fd : Text
proc_self_fd = text "/proc/self/fd"

-- Whether the loop of `sanitize_fds` closes a descriptor.
unfoldable pub is_unwanted : ℤ → List Bool → ℤ → Bool
is_unwanted dfd allowed fd = not (in_range fd allowed && is_allowed fd allowed) && not (eq_ℤ fd dfd)

unfoldable pub close_unwanted : ℤ → List Bool → List Dirent → List Call → List Call
unfolding parse_int is_unwanted
close_unwanted dfd allowed [] t = t
close_unwanted dfd allowed (e ∷ es) t =
    close_unwanted dfd allowed es
      (if is_unwanted dfd allowed (parse_int e.name) then close (parse_int e.name) ∷ t else t)

-- The second half: the loop over /proc/self/fd; the stream is closed at the end of its scope.
unfoldable pub close_listed : Env → World → Option World
close_listed env w = elim (env.directory w.trace proc_self_fd) [
  | none ↦ none
  | some dir ↦ some (record w {
    trace =
        close dir.dirfd
        ∷ close_unwanted dir.dirfd w.ctx.allowed_fds dir.entries (opendir proc_self_fd ∷ w.trace);
  })
]

unfoldable pub sanitize_fds : Env → World → Option World
unfolding exempt_all close_listed
sanitize_fds env w = if is_child w.ctx then close_listed env (exempt_all env w) else some w

-- The loop of `fork_pre` over the entries of /proc/self/fd: what it closes, and what it allows.
unfoldable pub record_fds : List Dirent → List Bool → List Call → List Bool × List Call
unfolding parse_int
record_fds [] allowed t = (allowed, t)
record_fds (e ∷ es) allowed t =
    let fd = parse_int e.name in
    record_fds es (if in_range fd allowed then assign fd true allowed else allowed)
      (if in_range fd allowed then t else close fd ∷ t)

-- After the fork, in the child.
unfoldable pub record_open : Env → World → Option World
record_open env w = elim (env.directory w.trace proc_self_fd) [
  | none ↦ none
  | some dir ↦
      let (allowed, t) =
        record_fds dir.entries w.ctx.allowed_fds (opendir proc_self_fd ∷ w.trace) in
      if in_range dir.dirfd allowed
      then some (record w {
        ctx = record w.ctx { allowed_fds = assign dir.dirfd false allowed };
        trace = close dir.dirfd ∷ t;
      })
      else none
]

-- The pointer `old_fork` is set: lsplt has given the original function.
abbrev pub HasFork : Env → World → Type 0
HasFork env w = env.backed_up (sigprocmask_block ∷ w.trace) fork_fn ≡ true

-- The state after `pid = old_fork()`.
abbrev pub forked : Env → World → World
forked env w =
    let v = emit sigprocmask_block w in
    record v { ctx = record v.ctx { pid = env.int v.trace fork }; trace = fork ∷ v.trace }

unfoldable pub fork_pre : Env → World → Option World
unfolding record_open
fork_pre env w =
    let v = forked env w in
    if not (env.backed_up (sigprocmask_block ∷ w.trace) fork_fn)
    then none
    else if is_child v.ctx
    then record_open env v
    else some v

unfoldable pub fork_post : World → World
fork_post w = emit sigprocmask_unblock w
