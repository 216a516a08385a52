-- ===== src/Examples/Libraries.antt =====
-- Modules, their libraries, tables and hooks, on the concrete phone.
use zygisk_magisk_module.Api.{valid, new_module, Member, exempt_fd, register_module}
use zygisk_magisk_module.Api.Layout.{Version, promised, member, register_module-promised, v4}
use zygisk_magisk_module.Examples.{phone, abi, state}
use zygisk_magisk_module.Flags.{has, app_specialize, server_fork_and_specialize}
use zygisk_magisk_module.Modules.{load_fds, load_modules, run_modules_pre}
use zygisk_magisk_module.Modules.Calls.{rev_onto, entry_of, app_entry, server_entry}
use zygisk_magisk_module.Modules.Frame.{entries, Same}
use zygisk_magisk_module.Modules.Loading.{IsLoaded, load_fds-closed, run_modules_pre_lem}
use zygisk_magisk_module.Plt.{plt_hook_process_regex, plt_hook_commit}
use zygisk_magisk_module.Plt.Selection.{IsSelected, plt_hook_commit_lem}
use zygisk_magisk_module.Prelude.{
  ℕ, ℤ, nonneg, ◌≡◌, refl, ◌⊎◌, true, false, List, [], ◌∷◌, map, length, All, Occurs, pos, some,
  ◌↔◌, minus_one,
}
use zygisk_magisk_module.Scan.{scan_all}
use zygisk_magisk_module.Scan.Paths.{IsModuleLibrary, scan_all_lem}
use zygisk_magisk_module.World.{
  on_load, pre_app, pre_server, no_args, close, Env, World, ModuleAbi, Text, Target, register_hook,
  module_func, open_file, text,
}

run_modules_pre_lem_example :
    let env : Env = phone (pos 0) 1 in
    let fds : List ℤ = pos 6 ∷ [] in
    let w : World = state (pos 0) 4 [] in
    let created = (load_fds env 0 fds w).1.ctx.modules in
    let kept = (load_modules env created (load_fds env 0 fds w).1).0 in
    let called = entries (run_modules_pre env fds w).trace in
    let loads = rev_onto (map (λ m. entry_of m on_load no_args) created) (entries w.trace) in
    All (IsLoaded 0 (length fds)) created
    × All (λ m. valid m ≡ true) kept
    × (has w.ctx.flags app_specialize ≡ true
        → called ≡ rev_onto (map (app_entry pre_app) kept) loads)
    × (has w.ctx.flags app_specialize ≡ false
        → has w.ctx.flags server_fork_and_specialize ≡ true
        → called ≡ rev_onto (map (server_entry pre_server) kept) loads)
run_modules_pre_lem_example =
    run_modules_pre_lem (phone (pos 0) 1) (pos 6 ∷ []) (state (pos 0) 4 []) refl

load_fds-closed_example :
    let env : Env = phone (pos 0) 1 in
    let i : ℕ = 0 in
    let fds : List ℤ = pos 6 ∷ [] in
    let w : World = state (pos 0) 4 [] in
    All (λ fd. (nonneg fd ≡ false) ⊎ Occurs (close fd) (load_fds env i fds w).1.trace) fds
load_fds-closed_example = load_fds-closed (phone (pos 0) 1) 0 (pos 6 ∷ []) (state (pos 0) 4 [])

plt_hook_commit_lem_example :
    let env : Env = phone (pos 0) 1 in
    let w : World = state (pos 0) 4 [] in
    let dev : ℕ = 7 in
    let inode : ℕ = 70 in
    let symbol : Text = text "open" in
    let target : Target = module_func 9 in
    let call = register_hook dev inode symbol target in
    let (result, v) = plt_hook_commit env w in
    (Occurs call v.trace ↔ (IsSelected env w.ctx (env.maps w.trace) call ⊎ Occurs call w.trace))
    × (v.ctx.register_info ≡ [])
    × (v.ctx.ignore_info ≡ [])
    × (result ≡ env.commits (plt_hook_process_regex env w).trace)
plt_hook_commit_lem_example =
    plt_hook_commit_lem (phone (pos 0) 1) (state (pos 0) 4 []) 7 70 (text "open") (module_func 9)

scan_all_lem_example :
    let env : Env = phone (pos 0) 1 in
    let w : World = state minus_one 0 [] in
    let r = scan_all env w in
    Same w r.1
    × All (λ fd. nonneg fd ≡ true) r.0
    × ((path : Text)
        → Occurs (open_file path) r.1.trace
        → IsModuleLibrary path ⊎ Occurs (open_file path) w.trace)
scan_all_lem_example = scan_all_lem (phone (pos 0) 1) (state minus_one 0 [])

register_module-promised_example :
    let v : Version = v4 in
    let mb : Member = exempt_fd in
    let k : ℕ = 2 in
    let abi : ModuleAbi = abi in
    let id : ℕ = 0 in
    let handle : ℕ = 0xb000 in
    let entry : ℕ = 0xb010 in
    let r = register_module true (some abi) (new_module id handle entry) in
    (r.0 ≡ true) × (r.1.abi ≡ some abi) × (member r.1.api (some k) ≡ some (promised v mb))
register_module-promised_example =
    register_module-promised v4 exempt_fd 2 abi 0 0xb000 0xb010 refl refl
