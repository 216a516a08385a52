-- ===== src/Modules/Loading.antt =====
-- `run_modules_pre` as a whole: the descriptors it is given, the modules it makes of them, and the
-- calls it makes to these.
use mathlib.Core.List.{append-nil, append_assoc}
use zygisk_magisk_module.Prelude.{
  ℕ, suc, ℤ, nonneg, ◌+◌, ◌≤◌, ◌<◌, ◌≡◌, ◌≢◌, refl, sym, ap, subst, ◌∙◌, ◌⊎◌, inl, inr, true, false,
  List, [], ◌∷◌, ◌++◌, map, length, arith, ◌==◌, Bool-cases, All, All-append, All-mono, Occurs,
}
use zygisk_magisk_module.Flags.{StateFlag, has, app_specialize, server_fork_and_specialize}
use zygisk_magisk_module.World.{
  on_load, pre_app, pre_server, no_args, Call, close, fstat, dlopen, Env, ZygiskModule, World,
}
use zygisk_magisk_module.Api.{valid, new_module}
use zygisk_magisk_module.Modules.{
  is_regular, load_fd, load_fds, load_modules, run_modules_pre, enter,
}
use zygisk_magisk_module.Modules.Frame.{entries}
use zygisk_magisk_module.Modules.Calls.{
  rev_onto, entry_of, app_entry, server_entry, load_modules_lem, pre_specialize-app,
  pre_specialize-server, enter_app_flag, enter_server_flag,
}

-- A module that was made from a loaded library: it has a handle and an entry, and its number is
-- that of its descriptor, between `i` and `j`.
abbrev pub IsLoaded : ℕ → ℕ → ZygiskModule → Type 0
IsLoaded i j m = (m.handle ≢ 0) × (m.entry ≢ 0) × (i ≤ m.id) × (m.id < j)

-- Loaded modules are added at the end of the list.
abbrev pub Adds : ℕ → ℕ → World → World → Type 0
Adds i j w v =
    (new : List ZygiskModule) × (v.ctx.modules ≡ w.ctx.modules ++ new) × All (IsLoaded i j) new

Adds-none : (i j : ℕ) (w v : World) → v.ctx.modules ≡ w.ctx.modules → Adds i j w v
Adds-none i j w v e = ([], e ∙ sym (append-nil w.ctx.modules), tt)

load_fd-Adds : (env : Env) (i : ℕ) (fd : ℤ) (w : World) → Adds i (suc i) w (load_fd env i fd w).1
unfolding load_fd new_module
load_fd-Adds env i fd w = elim (Bool-cases (is_regular (env.regular w.trace fd))) [
  | inr strange ↦ Adds-none i (suc i) w (load_fd env i fd w).1 (ground arith)
  | inl regular ↦ elim (Bool-cases (handle == 0)) [
    | inl failed ↦ Adds-none i (suc i) w (load_fd env i fd w).1 (ground arith)
    | inr loaded ↦ elim (Bool-cases (entry == 0)) [
      | inl missing ↦ Adds-none i (suc i) w (load_fd env i fd w).1 (ground arith)
      | inr found ↦ (new_module i handle entry ∷ [], ground arith, ground arith)
    ]
  ]
]
  where
    handle : ℕ
    handle = env.loading (fstat fd ∷ w.trace) fd

    entry : ℕ
    entry = env.symbol (dlopen fd ∷ fstat fd ∷ w.trace) handle

-- One round: the trace grows by calls that enter no module, the descriptor is closed, the flags
-- stay, and at most a module of that number is added.
record Round (i : ℕ) (fd : ℤ) (w v : World) : Type 0 where
  same_entries : entries v.trace ≡ entries w.trace
  same_flags : v.ctx.flags ≡ w.ctx.flags
  closed : (nonneg fd ≡ false) ⊎ Occurs (close fd) v.trace
  grows : (c : Call) → Occurs c w.trace → Occurs c v.trace
  added : Adds i (suc i) w v

load_fd-Round : (env : Env) (i : ℕ) (fd : ℤ) (w : World) → Round i fd w (load_fd env i fd w).1
unfolding load_fd entries new_module
load_fd-Round env i fd w = record {
  same_entries = ground arith;
  same_flags = ground arith;
  closed = ground arith;
  grows = λ c h. ground arith;
  added = load_fd-Adds env i fd w;
}

load_fds-grows :
    (env : Env) (i : ℕ) (fds : List ℤ) (w : World) (c : Call)
    → Occurs c w.trace
    → Occurs c (load_fds env i fds w).1.trace
unfolding load_fds
load_fds-grows env i [] w c h = h
load_fds-grows env i (fd ∷ fds) w c h =
    load_fds-grows env (suc i) fds (load_fd env i fd w).1 c ((load_fd-Round env i fd w).grows c h)

load_fds_quiet :
    (env : Env) (i : ℕ) (fds : List ℤ) (w : World)
    → let v = (load_fds env i fds w).1 in
      (entries v.trace ≡ entries w.trace) × (v.ctx.flags ≡ w.ctx.flags)
unfolding load_fds
load_fds_quiet env i [] w = (refl, refl)
load_fds_quiet env i (fd ∷ fds) w =
    let r = load_fd-Round env i fd w in
    let rest = load_fds_quiet env (suc i) fds (load_fd env i fd w).1 in
    (rest.0 ∙ r.same_entries, rest.1 ∙ r.same_flags)

-- The loading loop closes each descriptor that it is given, in whichever way its round ends.
pub load_fds-closed :
    (env : Env) (i : ℕ) (fds : List ℤ) (w : World)
    → All (λ fd. (nonneg fd ≡ false) ⊎ Occurs (close fd) (load_fds env i fds w).1.trace) fds
unfolding load_fds
load_fds-closed env i [] w = tt
load_fds-closed env i (fd ∷ fds) w =
    let v = (load_fd env i fd w).1 in
    let first = (load_fd-Round env i fd w).closed in (keep first, load_fds-closed env (suc i) fds v)
  where
    v : World
    v = (load_fd env i fd w).1

    keep :
        (nonneg fd ≡ false) ⊎ Occurs (close fd) v.trace
        → (nonneg fd ≡ false) ⊎ Occurs (close fd) (load_fds env (suc i) fds v).1.trace
    keep (inl neg) = inl neg
    keep (inr closed) = inr (load_fds-grows env (suc i) fds v (close fd) closed)

load_fds-Adds :
    (env : Env) (i j : ℕ) (fds : List ℤ) (w : World)
    → i + length fds ≡ j
    → Adds i j w (load_fds env i fds w).1
unfolding load_fds
load_fds-Adds env i j [] w e = Adds-none i j w w refl
load_fds-Adds env i j (fd ∷ fds) w e =
    let v = (load_fd env i fd w).1 in
    let (new, same, all) = load_fd-Adds env i fd w in
    let (more, same', all') = load_fds-Adds env (suc i) j fds v (omega arith) in
    (
      new ++ more,
      same' ∙ ap (λ ms. ms ++ more) same ∙ append_assoc w.ctx.modules new more,
      All-append (IsLoaded i j) new more
          (All-mono _ _ (λ m h. (h.0, h.1, h.2, omega arith)) new all)
          (All-mono _ _ (λ m h. (h.0, h.1, omega arith, h.3)) more all'),
    )

load_modules-flags :
    (env : Env) (ms : List ZygiskModule) (w : World)
    → let v = (load_modules env ms w).1 in
      (has v.ctx.flags app_specialize ≡ has w.ctx.flags app_specialize)
      × (has v.ctx.flags server_fork_and_specialize ≡ has w.ctx.flags server_fork_and_specialize)
unfolding load_modules
load_modules-flags env [] w = (refl, refl)
load_modules-flags env (m ∷ ms) w =
    let rest = load_modules-flags env ms (enter env on_load no_args m w).1 in
    (
      rest.0 ∙ enter_app_flag env on_load no_args m w,
      rest.1 ∙ enter_server_flag env on_load no_args m w,
    )

-- `run_modules_pre` in a context that has no module yet: the modules that it makes belong each to
-- one of the descriptors; `onLoad` is called once for each of them, in order; the modules that the
-- second loop keeps are valid, and each of them gets one more call, in order: in an app of
-- `preAppSpecialize`, with the struct of its version, in the system server of
-- `preServerSpecialize`.
pub run_modules_pre_lem :
    (env : Env) (fds : List ℤ) (w : World)
    → w.ctx.modules ≡ []
    → let created = (load_fds env 0 fds w).1.ctx.modules in
      let kept = (load_modules env created (load_fds env 0 fds w).1).0 in
      let called = entries (run_modules_pre env fds w).trace in
      let loads = rev_onto (map (λ m. entry_of m on_load no_args) created) (entries w.trace) in
      All (IsLoaded 0 (length fds)) created
      × All (λ m. valid m ≡ true) kept
      × (has w.ctx.flags app_specialize ≡ true
          → called ≡ rev_onto (map (app_entry pre_app) kept) loads)
      × (has w.ctx.flags app_specialize ≡ false
          → has w.ctx.flags server_fork_and_specialize ≡ true
          → called ≡ rev_onto (map (server_entry pre_server) kept) loads)
unfolding run_modules_pre
run_modules_pre_lem env fds w fresh =
    let v = (load_fds env 0 fds w).1 in
    let (new, made, all) = load_fds-Adds env 0 (length fds) fds w (omega arith) in
    let (quiet, flags) = load_fds_quiet env 0 fds w in
    let r = load_modules env v.ctx.modules v in
    let (ok, loaded) = load_modules_lem env v.ctx.modules v in
    let (app_same, server_same) = load_modules-flags env v.ctx.modules v in
    let u : World = record r.1 { ctx = record r.1.ctx { modules = r.0 } } in
    let loads =
      loaded ∙ ap (rev_onto (map (λ m. entry_of m on_load no_args) v.ctx.modules)) quiet in
    let of_flags : (f : StateFlag) → has v.ctx.flags f ≡ has w.ctx.flags f =
      λ f. ap (λ x. has x f) flags in
    (
      subst (All (IsLoaded 0 (length fds))) (sym (made ∙ ap (λ ms. ms ++ new) fresh)) all,
      ok,
      λ on.
          pre_specialize-app env r.0 u ok (app_same ∙ of_flags app_specialize ∙ on)
          ∙ ap (rev_onto (map (app_entry pre_app) r.0)) loads,
      λ off on.
          pre_specialize-server env r.0 u ok (app_same ∙ of_flags app_specialize ∙ off)
            (server_same ∙ of_flags server_fork_and_specialize ∙ on)
          ∙ ap (rev_onto (map (server_entry pre_server) r.0)) loads,
    )
