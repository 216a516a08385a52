-- ===== src/Scan/Paths.antt =====
-- What the scan opens, and what it leaves alone.
use zygisk_magisk_module.Prelude.{
  ℤ, nonneg, ◌≡◌, refl, ◌∙◌, ◌⊎◌, inl, inr, true, false, not, ◌||◌, List, [], ◌∷◌, ◌++◌, arith,
  Bool-cases, Option-cases, All, All-append, Occurs,
}
use zygisk_magisk_module.World.{Text, opendir, open_file, Dirent, Env, World}
use zygisk_magisk_module.Ipc.Bytes.{emit}
use zygisk_magisk_module.Modules.Frame.{entries, Same}
use zygisk_magisk_module.Scan.{
  modules_dir, is_hidden, is_library, open_libraries, zygisk_dir, scan_module, scan_modules,
  scan_all,
}

-- A step of the scan: no module's function is called and the context stays; the descriptors it
-- gives are real; and every file that it opens is at a path with the property.
abbrev Step : (Text → Type 0) → World → List ℤ × World → Type 0
Step P w r =
    Same w r.1
    × All (λ fd. nonneg fd ≡ true) r.0
    × ((path : Text) → Occurs (open_file path) r.1.trace → P path ⊎ Occurs (open_file path) w.trace)

idle : (P : Text → Type 0) (w : World) → Step P w ([], w)
idle P w = ((refl, refl, refl, refl), tt, λ path h. inr h)

-- A library of a directory.
abbrev InDir : Text → Text → Type 0
InDir dir path = (name : Text) × (is_library name ≡ true) × (dir ++ b'/' ∷ name ≡ path)

open_libraries-Step :
    (env : Env) (dir : Text) (es : List Dirent) (w : World)
    → Step (InDir dir) w (open_libraries env dir es w)
unfolding open_libraries entries
open_libraries-Step env dir [] w = idle (InDir dir) w
open_libraries-Step env dir (e ∷ es) w =
    let full = dir ++ b'/' ∷ e.name in
    elim (Bool-cases (is_library e.name)) [
      | inr other ↦ rw (other, open_libraries) (open_libraries-Step env dir es w)
      | inl lib ↦
          let (same, real, opens) = open_libraries-Step env dir es (emit (open_file full) w) in
          rw (lib, open_libraries)
            (
              (same.0, same.1, same.2, same.3),
              ground (arith, real),
              λ path h. elim (opens path h) [
                | inl found ↦ inl found
                | inr (inl this) ↦ inl (e.name, lib, ground arith)
                | inr (inr before) ↦ inr before
              ],
            )
    ]

-- `/data/adb/modules/<module>/zygisk/<name>.so`, for a module whose name has no dot in front.
abbrev pub IsModuleLibrary : Text → Type 0
IsModuleLibrary path = (name : Text) × (is_hidden name ≡ false) × InDir (zygisk_dir name) path

scan_module-Step :
    (env : Env) (e : Dirent) (w : World) → Step IsModuleLibrary w (scan_module env e w)
unfolding scan_module entries
scan_module-Step env e w =
    let dir = zygisk_dir e.name in
    elim (Bool-cases (not e.is_dir || is_hidden e.name)) [
      | inl skipped ↦ rw skipped (idle IsModuleLibrary w)
      | inr visited ↦ elim (Option-cases (env.directory w.trace dir)) [
        | inl missing ↦ rw (visited, missing) ((refl, refl, refl, refl), tt, λ path h. ground arith)
        | inr (d, there) ↦
            let shown : is_hidden e.name ≡ false = ground arith in
            let (same, real, opens) =
              open_libraries-Step env dir d.entries (emit (opendir dir) w) in
            rw (visited, there)
              (
                (same.0, same.1, same.2, same.3),
                real,
                λ path h. elim h [
                  | inl this ↦ ground arith
                  | inr before ↦ elim (opens path before) [
                    | inl found ↦ inl (e.name, shown, found)
                    | inr (inl this) ↦ ground arith
                    | inr (inr old) ↦ inr old
                  ]
                ],
              )
      ]
    ]

scan_modules-Step :
    (env : Env) (es : List Dirent) (w : World) → Step IsModuleLibrary w (scan_modules env es w)
unfolding scan_modules
scan_modules-Step env [] w = idle IsModuleLibrary w
scan_modules-Step env (e ∷ es) w =
    let r = scan_module env e w in
    let (same, real, opens) = scan_module-Step env e w in
    let (same', real', opens') = scan_modules-Step env es r.1 in
    (
      (same'.0 ∙ same.0, same'.1 ∙ same.1, same'.2 ∙ same.2, same'.3 ∙ same.3),
      All-append (λ fd. nonneg fd ≡ true) r.0 _ real real',
      λ path h. elim (opens' path h) [ inl found ↦ inl found | inr before ↦ opens path before ],
    )

-- The scan calls no module's function and leaves the context and the globals alone; it gives real
-- descriptors only; and each file that it opens is a library of a module.
pub scan_all_lem :
    (env : Env) (w : World)
    → let r = scan_all env w in
      Same w r.1
      × All (λ fd. nonneg fd ≡ true) r.0
      × ((path : Text)
          → Occurs (open_file path) r.1.trace
          → IsModuleLibrary path ⊎ Occurs (open_file path) w.trace)
unfolding scan_all entries
scan_all_lem env w = elim (Option-cases (env.directory w.trace modules_dir)) [
  | inl missing ↦ rw (scan_all, missing) ((refl, refl, refl, refl), tt, λ path h. ground arith)
  | inr (d, there) ↦
      let (same, real, opens) = scan_modules-Step env d.entries (emit (opendir modules_dir) w) in
      rw (scan_all, there)
        (
          (same.0, same.1, same.2, same.3),
          real,
          λ path h. elim h [
            | inl this ↦ ground arith
            | inr before ↦ elim (opens path before) [
              | inl found ↦ inl found
              | inr (inl this) ↦ ground arith
              | inr (inr old) ↦ inr old
            ]
          ],
        )
]
