-- ===== src/Modules/Calls.antt =====
-- Which functions of which modules are called, in which order, and with which arguments.
use zygisk_magisk_module.Prelude.{
  filter, pos, leb, ◌≡◌, refl, ap, ◌∙◌, true, false, none, some, List, [], ◌∷◌, map, arith,
  if◌then◌else◌, Bool-cases, inl, inr, All,
}
use zygisk_magisk_module.Flags.{
  has, add_flag, app_specialize, server_fork_and_specialize, post_specialize,
}
use zygisk_magisk_module.Flags.Laws.{has-add_flag}
use zygisk_magisk_module.World.{
  ModuleAbi, Callback, on_load, pre_app, post_app, pre_server, post_server, ArgsView, no_args,
  app_v1, app_v5, server_v1, enter_module, Env, ZygiskModule, World,
}
use zygisk_magisk_module.Ipc.Bytes.{emit}
use zygisk_magisk_module.Api.{valid, is_version}
use zygisk_magisk_module.Api.Layout.{valid_iff}
use zygisk_magisk_module.Modules.{
  enter, app_view, call_app, call_server, specialize, load_modules, pre_specialize,
  post_specialize_all, try_unload, run_modules_post,
}
use zygisk_magisk_module.Modules.Frame.{Entry, entries, invoke_all-IsQuiet}

-- The first list, turned round, in front of the second: a trace holds the newest first.
pub rev_onto {ℓ} : {A : Type ℓ} → List A → List A → List A
rev_onto [] ys = ys
rev_onto (x ∷ xs) ys = rev_onto xs (x ∷ ys)

abbrev pub entry_of : ZygiskModule → Callback → ArgsView → Entry
entry_of m cb view = record { id = m.id; callback = cb; view = view }

-- One call of a module's function: it is noted once, and nothing else that IsQuiet names changes.
enter_entries :
    (env : Env) (cb : Callback) (view : ArgsView) (m : ZygiskModule) (w : World)
    → entries (enter env cb view m w).1.trace ≡ entry_of m cb view ∷ entries w.trace
unfolding enter entries
enter_entries env cb view m w =
    (invoke_all-IsQuiet env (env.behaviour w.trace m.id cb) m
      (emit (enter_module m.id cb view) w)).same_entries

pub enter_app_flag :
    (env : Env) (cb : Callback) (view : ArgsView) (m : ZygiskModule) (w : World)
    → has (enter env cb view m w).1.ctx.flags app_specialize ≡ has w.ctx.flags app_specialize
unfolding enter
enter_app_flag env cb view m w =
    (invoke_all-IsQuiet env (env.behaviour w.trace m.id cb) m
        (emit (enter_module m.id cb view) w)).same_flags
      app_specialize refl

pub enter_server_flag :
    (env : Env) (cb : Callback) (view : ArgsView) (m : ZygiskModule) (w : World)
    → has (enter env cb view m w).1.ctx.flags server_fork_and_specialize
      ≡ has w.ctx.flags server_fork_and_specialize
unfolding enter
enter_server_flag env cb view m w =
    (invoke_all-IsQuiet env (env.behaviour w.trace m.id cb) m
        (emit (enter_module m.id cb view) w)).same_flags
      server_fork_and_specialize refl

-- After the loading loop every module is valid, and `onLoad` of each module that was there has
-- been called once, in their order.
pub load_modules_lem :
    (env : Env) (ms : List ZygiskModule) (w : World)
    → let r = load_modules env ms w in
      All (λ m. valid m ≡ true) r.0
      × (entries r.1.trace ≡ rev_onto (map (λ m. entry_of m on_load no_args) ms) (entries w.trace))
unfolding load_modules rev_onto
load_modules_lem env [] w = (tt, refl)
load_modules_lem env (m ∷ ms) w =
    let e = enter env on_load no_args m w in
    let rest = load_modules_lem env ms e.1 in
    (
      elim (Bool-cases (valid e.0)) [ inl ok ↦ rw ok (ok, rest.0) | inr bad ↦ rw bad rest.0 ],
      rest.1
          ∙ ap (rev_onto (map (λ m. entry_of m on_load no_args) ms))
              (enter_entries env on_load no_args m w),
    )

-- The modules as `onLoad` leaves them, called one after the other.
unfoldable pub after_load : Env → List ZygiskModule → World → List ZygiskModule
after_load env [] w = []
after_load env (m ∷ ms) w = let (m', v) = enter env on_load no_args m w in m' ∷ after_load env ms v

-- The loading loop keeps exactly those that are valid then.
pub load_modules-filter :
    (env : Env) (ms : List ZygiskModule) (w : World)
    → (load_modules env ms w).0 ≡ filter valid (after_load env ms w)
unfolding load_modules after_load
load_modules-filter env [] w = refl
load_modules-filter env (m ∷ ms) w =
    ground (arith, load_modules-filter env ms (enter env on_load no_args m w).1)

-- The struct that a module's version is handed: the short one up to version 2.
abbrev pub view_of : ModuleAbi → ArgsView
view_of a = elim a.api_version [ pos n ↦ (if leb n 2 then app_v1 else app_v5) | other ↦ app_v5 ]

app_view-view_of :
    (a : ModuleAbi) → is_version a.api_version ≡ true → app_view a.api_version ≡ some (view_of a)
unfolding app_view is_version
app_view-view_of a h = ground arith

-- The call of an app function that a module gets.
abbrev pub app_entry : Callback → ZygiskModule → Entry
app_entry cb m = entry_of m cb (elim m.abi [ none ↦ no_args | some a ↦ view_of a ])

abbrev pub server_entry : Callback → ZygiskModule → Entry
server_entry cb m = entry_of m cb server_v1

call_app-enter :
    (env : Env) (cb : Callback) (m : ZygiskModule) (w : World)
    → valid m ≡ true
    → call_app env cb m w ≡ enter env cb (app_entry cb m).view m w
unfolding call_app
call_app-enter env cb m w v =
    let (a, held, version, all) = (valid_iff m).0 v in ground (arith, app_view-view_of a version)

call_server-enter :
    (env : Env) (cb : Callback) (m : ZygiskModule) (w : World)
    → valid m ≡ true
    → call_server env cb m w ≡ enter env cb server_v1 m w
unfolding call_server
call_server-enter env cb m w v = let (a, held, version, all) = (valid_iff m).0 v in ground arith

specialize-app :
    (env : Env) (for_app for_server : Callback) (m : ZygiskModule) (w : World)
    → valid m ≡ true
    → has w.ctx.flags app_specialize ≡ true
    → specialize env for_app for_server m w ≡ enter env for_app (app_entry for_app m).view m w
unfolding specialize
specialize-app env for_app for_server m w v on = ground (arith, call_app-enter env for_app m w v)

specialize-server :
    (env : Env) (for_app for_server : Callback) (m : ZygiskModule) (w : World)
    → valid m ≡ true
    → has w.ctx.flags app_specialize ≡ false
    → has w.ctx.flags server_fork_and_specialize ≡ true
    → specialize env for_app for_server m w ≡ enter env for_server server_v1 m w
unfolding specialize
specialize-server env for_app for_server m w v off on =
    ground (arith, call_server-enter env for_server m w v)

-- In an app, each valid module's function is called once, in order, with its version's struct.
pub pre_specialize-app :
    (env : Env) (ms : List ZygiskModule) (w : World)
    → All (λ m. valid m ≡ true) ms
    → has w.ctx.flags app_specialize ≡ true
    → entries (pre_specialize env ms w).1.trace
      ≡ rev_onto (map (app_entry pre_app) ms) (entries w.trace)
unfolding pre_specialize rev_onto
pre_specialize-app env [] w all on = refl
pre_specialize-app env (m ∷ ms) w (v, all) on =
    let view = (app_entry pre_app m).view in
    rw (specialize-app env pre_app pre_server m w v on) (
      pre_specialize-app env ms (enter env pre_app view m w).1 all
        (enter_app_flag env pre_app view m w ∙ on)
      ∙ ap (rev_onto (map (app_entry pre_app) ms)) (enter_entries env pre_app view m w))

-- In the system server, its server function is.
pub pre_specialize-server :
    (env : Env) (ms : List ZygiskModule) (w : World)
    → All (λ m. valid m ≡ true) ms
    → has w.ctx.flags app_specialize ≡ false
    → has w.ctx.flags server_fork_and_specialize ≡ true
    → entries (pre_specialize env ms w).1.trace
      ≡ rev_onto (map (server_entry pre_server) ms) (entries w.trace)
unfolding pre_specialize rev_onto
pre_specialize-server env [] w all off on = refl
pre_specialize-server env (m ∷ ms) w (v, all) off on =
    rw (specialize-server env pre_app pre_server m w v off on) (
      pre_specialize-server env ms (enter env pre_server server_v1 m w).1 all
        (enter_app_flag env pre_server server_v1 m w ∙ off)
        (enter_server_flag env pre_server server_v1 m w ∙ on)
      ∙ ap (rev_onto (map (server_entry pre_server) ms))
          (enter_entries env pre_server server_v1 m w))

try_unload_keeps :
    (m : ZygiskModule) (w : World)
    → (entries (try_unload m w).trace ≡ entries w.trace) × ((try_unload m w).ctx ≡ w.ctx)
unfolding try_unload entries
try_unload_keeps m w = ground arith

post_specialize-app :
    (env : Env) (ms : List ZygiskModule) (w : World)
    → All (λ m. valid m ≡ true) ms
    → has w.ctx.flags app_specialize ≡ true
    → entries (post_specialize_all env ms w).1.trace
      ≡ rev_onto (map (app_entry post_app) ms) (entries w.trace)
unfolding post_specialize_all rev_onto
post_specialize-app env [] w all on = refl
post_specialize-app env (m ∷ ms) w (v, all) on =
    let view = (app_entry post_app m).view in
    let e = enter env post_app view m w in
    let kept = try_unload_keeps e.0 e.1 in
    rw (specialize-app env post_app post_server m w v on) (
      post_specialize-app env ms (try_unload e.0 e.1) all
        (ap (λ c. has c.flags app_specialize) kept.1 ∙ enter_app_flag env post_app view m w ∙ on)
      ∙ ap (rev_onto (map (app_entry post_app) ms)) (kept.0 ∙ enter_entries env post_app view m w))

post_specialize-server :
    (env : Env) (ms : List ZygiskModule) (w : World)
    → All (λ m. valid m ≡ true) ms
    → has w.ctx.flags app_specialize ≡ false
    → has w.ctx.flags server_fork_and_specialize ≡ true
    → entries (post_specialize_all env ms w).1.trace
      ≡ rev_onto (map (server_entry post_server) ms) (entries w.trace)
unfolding post_specialize_all rev_onto
post_specialize-server env [] w all off on = refl
post_specialize-server env (m ∷ ms) w (v, all) off on =
    let e = enter env post_server server_v1 m w in
    let kept = try_unload_keeps e.0 e.1 in
    rw (specialize-server env post_app post_server m w v off on) (
      post_specialize-server env ms (try_unload e.0 e.1) all
        (ap (λ c. has c.flags app_specialize) kept.1
          ∙ enter_app_flag env post_server server_v1 m w
          ∙ off)
        (ap (λ c. has c.flags server_fork_and_specialize) kept.1
          ∙ enter_server_flag env post_server server_v1 m w
          ∙ on)
      ∙ ap (rev_onto (map (server_entry post_server) ms))
          (kept.0 ∙ enter_entries env post_server server_v1 m w))

pub run_modules_post_lem :
    (env : Env) (w : World)
    → All (λ m. valid m ≡ true) w.ctx.modules
    → (has w.ctx.flags app_specialize ≡ true
        → entries (run_modules_post env w).trace
          ≡ rev_onto (map (app_entry post_app) w.ctx.modules) (entries w.trace))
      × (has w.ctx.flags app_specialize ≡ false
          → has w.ctx.flags server_fork_and_specialize ≡ true
          → entries (run_modules_post env w).trace
            ≡ rev_onto (map (server_entry post_server) w.ctx.modules) (entries w.trace))
unfolding run_modules_post
run_modules_post_lem env w all =
    let v : World = record w {
      ctx = record w.ctx { flags = add_flag w.ctx.flags post_specialize };
    } in
    let app_same = has-add_flag w.ctx.flags post_specialize app_specialize in
    let server_same = has-add_flag w.ctx.flags post_specialize server_fork_and_specialize in
    (
      λ on. post_specialize-app env w.ctx.modules v all (app_same ∙ on),
      λ off on. post_specialize-server env w.ctx.modules v all (app_same ∙ off) (server_same ∙ on),
    )
