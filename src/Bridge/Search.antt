-- ===== src/Bridge/Search.antt =====
-- What the search for the runtime callbacks finds, and what is done with it.
use zygisk_magisk_module.Prelude.{
  ℕ, ◌≤◌, ◌<◌, ◌≡◌, ◌≢◌, refl, ap, ◌∙◌, subst, ◌↔◌, ◌⊎◌, inl, inr, Bool, true, false, Option, none,
  some, List, [], ◌∷◌, ◌++◌, drop, length, ltb_iff, ==_cases, tests, arith, if◌then◌else◌, All,
  Occurs,
}
use zygisk_magisk_module.World.{
  Text, Call, scan_maps, backtrace, load_native_bridge, StackFrame, Env, HookContext,
}
use zygisk_magisk_module.Bridge.{
  is_within, first_within, find_art_data, candidates, find_runtime_callbacks, is_bridge, find_frame,
  zygisk_loader, unwind_get_region_start, reload_native_bridge, use_frame, post_native_bridge_load,
}

-- The first value of a list that passes a test.
abbrev pub IsFirst {ℓ} : {A : Type ℓ} → (A → Bool) → A → List A → Type ℓ
IsFirst {A = A} test v vs =
    (before : List A) × (after : List A) × (vs ≡ before ++ v ∷ after)
    × All (λ u. test u ≡ false) before
    × (test v ≡ true)

IsFirst-∷ :
    {A : Type 0} (test : A → Bool) (u v : A) (vs : List A)
    → test u ≡ false
    → IsFirst test v vs
    → IsFirst test v (u ∷ vs)
IsFirst-∷ test u v vs fails (before, after, e, all, holds) =
    (u ∷ before, after, ap (λ x. u ∷ x) e, (fails, all), holds)

-- The first value in a range, or null if there is none.
abbrev pub FirstWithin : ℕ × ℕ → List ℕ → ℕ → Type 0
FirstWithin range vs v =
    ((v ≡ 0) × All (λ u. is_within range u ≡ false) vs) ⊎ IsFirst (is_within range) v vs

first_within_lem : (range : ℕ × ℕ) (vs : List ℕ) → FirstWithin range vs (first_within range vs)
unfolding first_within
first_within_lem range [] = inl (refl, tt)
first_within_lem range (u ∷ vs) = go (is_within range u) refl (first_within_lem range vs)
  where
    go :
        (b : Bool)
        → is_within range u ≡ b
        → FirstWithin range vs (first_within range vs)
        → FirstWithin range (u ∷ vs) (if b then u else first_within range vs)
    go true holds rest = inr ([], vs, refl, tt, holds)
    go false fails (inl (nothing, all)) = inl (nothing, (fails, all))
    go false fails (inr there) = inr (IsFirst-∷ (is_within range) u _ vs fails there)

is_within-bounds :
    (range : ℕ × ℕ) (v : ℕ) → is_within range v ≡ true → (range.0 ≤ v) × (v < range.1)
is_within-bounds range v h = grind tests

-- A value that is found and not null is within the range.
pub FirstWithin-bounds :
    (range : ℕ × ℕ) (vs : List ℕ) (v : ℕ)
    → FirstWithin range vs v
    → v ≢ 0
    → (range.0 ≤ v) × (v < range.1)
FirstWithin-bounds range vs v (inl (nothing, all)) given = absurd (given nothing)
FirstWithin-bounds range vs v (inr found) given = is_within-bounds range v found.4

-- The first frame of the library of the native bridge, if there is one.
abbrev pub FoundFrame : List StackFrame → Option StackFrame → Type 0
FoundFrame fs none = All (λ f. is_bridge f ≡ false) fs
FoundFrame fs (some f) = IsFirst is_bridge f fs

find_frame_lem : (fs : List StackFrame) → FoundFrame fs (find_frame fs)
unfolding find_frame
find_frame_lem [] = tt
find_frame_lem (f ∷ fs) = go (is_bridge f) (find_frame fs) refl (find_frame_lem fs)
  where
    go :
        (b : Bool) (o : Option StackFrame)
        → is_bridge f ≡ b
        → FoundFrame fs o
        → FoundFrame (f ∷ fs) (if b then some f else o)
    go true o holds rest = ([], fs, refl, tt, holds)
    go false none fails all = (fails, all)
    go false (some g) fails first = IsFirst-∷ is_bridge f g fs fails first

-- Which native bridges are loaded from one trace to a longer one: those that pass a test.
abbrev pub LoadsOnly : (ℕ → Text → ℕ → Type 0) → List Call → List Call → Type 0
LoadsOnly P t u =
    (fn callbacks : ℕ) (path : Text)
    → Occurs (load_native_bridge fn path callbacks) u
      ↔ (P fn path callbacks ⊎ Occurs (load_native_bridge fn path callbacks) t)

-- The native bridge that the rest of the property names.
abbrev pub IsReload : Env → List Call → ℕ → ℕ → ℕ → Text → ℕ → Type 0
IsReload env t fn callbacks fn' path callbacks' =
    let nb = env.bridge_property t in
    (fn' ≡ fn)
    × (callbacks' ≡ callbacks)
    × (length zygisk_loader < length nb)
    × (path ≡ drop (length zygisk_loader) nb)

reload_native_bridge-LoadsOnly :
    (env : Env) (fn callbacks : ℕ) (t : List Call)
    → LoadsOnly (IsReload env t fn callbacks) t (reload_native_bridge env fn callbacks t)
unfolding reload_native_bridge
reload_native_bridge-LoadsOnly env fn callbacks t fn' callbacks' path =
    ground (arith, ltb_iff (length zygisk_loader) (length (env.bridge_property t)))

-- What has become of the context of the hooks: nothing but its handle has changed, or the runtime
-- callbacks are set.
abbrev pub Bridged : Env → HookContext → List Call → HookContext × List Call → Type 0
Bridged env h t (h', u) =
    let start : StackFrame → ℕ = λ f. unwind_get_region_start env.arch f in
    let Finds : StackFrame → ℕ → Type 0 =
      λ f v. FirstWithin (find_art_data (env.maps (backtrace ∷ t))) (candidates env.arch f) v in
    ((h'.runtime_callbacks ≡ h.runtime_callbacks)
      × LoadsOnly (λ fn path callbacks. ⊥) t u
      × (All (λ f. is_bridge f ≡ false) (env.frames t)
          ⊎ ((f : StackFrame) × IsFirst is_bridge f (env.frames t) × ((start f ≡ 0) ⊎ Finds f 0))))
    ⊎ ((f : StackFrame) × IsFirst is_bridge f (env.frames t)
        × (start f ≢ 0)
        × (h'.runtime_callbacks ≢ 0)
        × Finds f h'.runtime_callbacks
        × LoadsOnly (IsReload env (scan_maps ∷ backtrace ∷ t) (start f) h'.runtime_callbacks) t u)

after_walk :
    (P : ℕ → Text → ℕ → Type 0) (t u : List Call)
    → LoadsOnly P (scan_maps ∷ backtrace ∷ t) u
    → LoadsOnly P t u
after_walk P t u loads fn callbacks path = ground (arith, loads fn callbacks path)

walked-LoadsOnly :
    (t : List Call) → LoadsOnly (λ fn path callbacks. ⊥) t (scan_maps ∷ backtrace ∷ t)
walked-LoadsOnly t fn callbacks path = ground arith

use_frame_lem :
    (env : Env) (handle : ℕ) (h : HookContext) (t : List Call) (o : Option StackFrame)
    → FoundFrame (env.frames t) o
    → let r = use_frame env (record h { self_handle = handle }) (backtrace ∷ t) o in
      (r.0.self_handle ≡ handle) × Bridged env h t r
unfolding use_frame find_runtime_callbacks
use_frame_lem env handle h t none all =
    (refl, inl (refl, λ fn callbacks path. ground arith, inl all))
use_frame_lem env handle h t (some f) first =
    let fn = unwind_get_region_start env.arch f in
    let callbacks = find_runtime_callbacks env f (backtrace ∷ t) in
    let asked = scan_maps ∷ backtrace ∷ t in
    let range = find_art_data (env.maps (backtrace ∷ t)) in
    let finds = first_within_lem range (candidates env.arch f) in
    elim (==_cases fn 0) [
      | inl (test, no_fn) ↦
          rw test (refl, inl (refl, walked-LoadsOnly t, inr (f, first, inl no_fn)))
      | inr (test, has_fn) ↦ elim (==_cases callbacks 0) [
        | inl (test', no_callbacks) ↦
            let finds' = subst (FirstWithin range (candidates env.arch f)) no_callbacks finds in
            rw test (rw test' (refl, inl (refl, walked-LoadsOnly t, inr (f, first, inr finds'))))
        | inr (test', has_callbacks) ↦
            let loads = reload_native_bridge-LoadsOnly env fn callbacks asked in
            rw test (
              rw test' (refl, inr (f, first, has_fn, has_callbacks, finds, after_walk _ t _ loads)))
      ]
    ]

-- The handle of the library is noted in any case. The runtime callbacks are set if the call stack
-- has a frame of libnativebridge.so and the first such frame has a start and a saved pointer into
-- the data of libart.so, and only then; and then the function at its start is called, with these
-- callbacks, for the rest of the property behind the name of the library, if there is a rest.
pub post_native_bridge_load_lem :
    (env : Env) (handle : ℕ) (h : HookContext) (t : List Call)
    → let r = post_native_bridge_load env handle h t in
      (r.0.self_handle ≡ handle) × Bridged env h t r
unfolding post_native_bridge_load
post_native_bridge_load_lem env handle h t =
    use_frame_lem env handle h t (find_frame (env.frames t)) (find_frame_lem (env.frames t))

find_frame-first :
    (f : StackFrame) (before after : List StackFrame)
    → All (λ g. is_bridge g ≡ false) before
    → is_bridge f ≡ true
    → find_frame (before ++ f ∷ after) ≡ some f
unfolding find_frame
find_frame-first f [] after all holds = rw holds refl
find_frame-first f (g ∷ before) after (fails, all) holds =
    rw fails (find_frame-first f before after all holds)

first_within-first :
    (range : ℕ × ℕ) (v : ℕ) (before after : List ℕ)
    → All (λ u. is_within range u ≡ false) before
    → is_within range v ≡ true
    → first_within range (before ++ v ∷ after) ≡ v
unfolding first_within
first_within-first range v [] after all holds = rw holds refl
first_within-first range v (u ∷ before) after (fails, all) holds =
    rw fails (first_within-first range v before after all holds)

-- The call stack and the maps show where the runtime callbacks are.
abbrev pub Shows : Env → List Call → StackFrame → ℕ → Type 0
Shows env t f v =
    IsFirst is_bridge f (env.frames t)
    × (unwind_get_region_start env.arch f ≢ 0)
    × IsFirst (is_within (find_art_data (env.maps (backtrace ∷ t)))) v (candidates env.arch f)
    × (v ≢ 0)

pub post_native_bridge_load-finds :
    (env : Env) (handle : ℕ) (h : HookContext) (t : List Call) (f : StackFrame) (v : ℕ)
    → Shows env t f v
    → (post_native_bridge_load env handle h t).0
      ≡ record h { self_handle = handle; runtime_callbacks = v }
unfolding post_native_bridge_load use_frame find_runtime_callbacks
post_native_bridge_load-finds env handle h t f v (first, has_fn, found, given) =
    let range = find_art_data (env.maps (backtrace ∷ t)) in
    let (before, after, listed, fails, holds) = first in
    let (before', after', listed', fails', holds') = found in
    let same : find_frame (env.frames t) ≡ some f =
      ap find_frame listed ∙ find_frame-first f before after fails holds in
    let same' : first_within range (candidates env.arch f) ≡ v =
      ap (first_within range) listed' ∙ first_within-first range v before' after' fails' holds' in
    ground (arith, same, same', has_fn, given)
