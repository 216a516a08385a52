-- ===== src/Examples/Zygote.antt =====
-- The hooks of Zygote's native methods on a class with two of the three.
use zygisk_magisk_module.Examples.{phone, hook, old_signature, our_table, new_signature}
use zygisk_magisk_module.Jni.{old_fn_of}
use zygisk_magisk_module.Jni.Listing.{IsOurs}
use zygisk_magisk_module.Jni.Restore.{replace_in_zygote_lem, restore_zygote_hook-replace_in_zygote}
use zygisk_magisk_module.Jni.Restore.Finish.{IsGivenUp, IsReplaced}
use zygisk_magisk_module.Jni.Restore.Slots.{IsSingle}
use zygisk_magisk_module.Jni.Restore.Tables.{IsTables}
use zygisk_magisk_module.Jni.Vm.{Shorty, IsVm, IsClear, write_one, resolved}
use zygisk_magisk_module.Jni.Zygote.{
  zygote_class, fork_app_name, specialize_app_name, fork_server_name, replace_in_zygote,
  restore_zygote_hook,
}
use zygisk_magisk_module.Plt.{eq_text}
use zygisk_magisk_module.Plt.Selection.{eq_text_iff}
use zygisk_magisk_module.Prelude.{
  ℕ, ◌≡◌, ◌≢◌, refl, ◌⊎◌, inr, false, Option, none, some, List, [], ◌∷◌, ◌==◌, map, arith,
  if◌then◌else◌, All, pos,
}
use zygisk_magisk_module.World.{
  Text, NativeMethod, Call, find_class, Env, HookContext, text, register_natives,
}

abbrev server_signature : Text
server_signature = text "(II[II[[IJJ)I"

abbrev full_shorty : Text → Text → Option Text
full_shorty name signature =
    if eq_text signature new_signature
    then some (text "IIILILILLLLLL")
    else if eq_text signature server_signature
    then some (text "IIILILJJ")
    else none

-- The class has no method for the specialisation of an app.
abbrev full_natives : List NativeMethod
full_natives =
    record { name = fork_app_name; signature = text "IIILILILLLLLL"; fn = 100 }
    ∷ record { name = text "nativeInitNativeState"; signature = text "VZ"; fn = 102 }
    ∷ record { name = fork_server_name; signature = text "IIILILJJ"; fn = 101 }
    ∷ []

abbrev full_listing : List Call → List NativeMethod
full_listing [] = full_natives
full_listing (register_natives clazz m ∷ t) = map (write_one full_shorty m) (full_listing t)
full_listing (c ∷ t) = full_listing t

abbrev full_address : Text → Text → ℕ
full_address name signature =
    if eq_text signature new_signature
    then 202
    else if eq_text signature server_signature
    then 203
    else 201

abbrev full_owner : ℕ → Text × Text
full_owner fn =
    if fn == 203
    then (fork_server_name, server_signature)
    else if fn == 202
    then (fork_app_name, new_signature)
    else (fork_app_name, old_signature)

abbrev server_table : List NativeMethod
server_table = record { name = fork_server_name; signature = server_signature; fn = 203 } ∷ []

abbrev zygote_hook : HookContext
zygote_hook = record hook { fork_server_methods = server_table }

abbrev zygote_phone : Env
zygote_phone = record (phone (pos 0) 1) {
  native_methods = λ t clazz. full_listing t;
  registers_natives = λ t clazz m. resolved full_shorty m;
  replacement = full_address;
}

full-IsVm : IsVm zygote_phone 5 full_shorty
full-IsVm = record {
  resolves = λ t m. refl;
  registered = λ t m given. refl;
  asked = λ t. refl;
  cleared = λ t. refl;
}

full-one_signature :
    (name signature signature' s : Text)
    → full_shorty name signature ≡ some s
    → full_shorty name signature' ≡ some s
    → signature ≡ signature'
full-one_signature name signature signature' s known known' = ground (
  arith,
  eq_text_iff signature new_signature,
  eq_text_iff signature' new_signature,
  eq_text_iff signature server_signature,
  eq_text_iff signature' server_signature,
)

full-IsClear : IsClear full_shorty full_natives
unfolding old_fn_of eq_text
full-IsClear = record {
  one_signature = full-one_signature;
  entries =
      ((refl, λ e. ground arith), ((refl, λ e. ground arith), ((refl, λ e. ground arith), tt)));
}

our_table-IsOurs : All (IsOurs full_address full_owner full_natives) our_table
unfolding eq_text
our_table-IsOurs = (
  inr (record {
    its_address = refl;
    its_owner = refl;
    is_fresh = (λ e. ground arith, (λ e. ground arith, (λ e. ground arith, tt)));
  }),
  (
    inr (record {
      its_address = refl;
      its_owner = refl;
      is_fresh = (λ e. ground arith, (λ e. ground arith, (λ e. ground arith, tt)));
    }),
    tt,
  ),
)

server_table-IsOurs : All (IsOurs full_address full_owner full_natives) server_table
unfolding eq_text
server_table-IsOurs = (
  inr (record {
    its_address = refl;
    its_owner = refl;
    is_fresh = (λ e. ground arith, (λ e. ground arith, (λ e. ground arith, tt)));
  }),
  tt,
)

other_text : (s t : Text) → eq_text s t ≡ false → s ≢ t
other_text s t other same = let test = (eq_text_iff s t).1 same in absurd (cc)

full-IsSingle :
    IsSingle fork_app_name full_natives
    × IsSingle specialize_app_name full_natives
    × IsSingle fork_server_name full_natives
unfolding eq_text
full-IsSingle =
    let init = text "nativeInitNativeState" in
    (
      (
        λ e. (
          other_text init fork_app_name refl,
          (other_text fork_server_name fork_app_name refl, tt),
        ),
        (λ e. absurd (other_text init fork_app_name refl e), (λ e. tt, tt)),
      ),
      (
        λ e. absurd (other_text fork_app_name specialize_app_name refl e),
        (λ e. absurd (other_text init specialize_app_name refl e), (λ e. tt, tt)),
      ),
      (
        λ e. absurd (other_text fork_app_name fork_server_name refl e),
        (λ e. absurd (other_text init fork_server_name refl e), (λ e. tt, tt)),
      ),
    )

zygote_hook-IsTables : IsTables full_address full_owner full_natives zygote_hook
zygote_hook-IsTables = record {
  fork_app = record {
    named = (refl, (refl, tt));
    ours = our_table-IsOurs;
    single = full-IsSingle.0;
  };
  specialize_app = record { named = tt; ours = tt; single = full-IsSingle.1 };
  fork_server = record { named = (refl, tt); ours = server_table-IsOurs; single = full-IsSingle.2 };
}

replace_in_zygote_lem_example :
    let env : Env = zygote_phone in
    let shorty : Shorty = full_shorty in
    let h : HookContext = zygote_hook in
    let t : List Call = [] in
    let clazz = env.address t (find_class zygote_class) in
    let listed = env.native_methods (find_class zygote_class ∷ t) clazz in
    let r = replace_in_zygote env h t in
    IsGivenUp env clazz shorty listed h r ⊎ IsReplaced env clazz shorty listed h r
replace_in_zygote_lem_example =
    replace_in_zygote_lem zygote_phone full_shorty full_address full_owner zygote_hook ([])
      (full-IsVm) (full-IsClear) (zygote_hook-IsTables)

restore_zygote_hook-replace_in_zygote_example :
    let env : Env = zygote_phone in
    let h : HookContext = zygote_hook in
    let t : List Call = [] in
    let v : List Call = (replace_in_zygote zygote_phone zygote_hook []).1 in
    let clazz = env.address t (find_class zygote_class) in
    env.native_methods (restore_zygote_hook env (replace_in_zygote env h t).0 v).1 clazz
    ≡ env.native_methods (find_class zygote_class ∷ t) clazz
restore_zygote_hook-replace_in_zygote_example =
    restore_zygote_hook-replace_in_zygote zygote_phone full_shorty full_address full_owner
      zygote_hook ([]) ((replace_in_zygote zygote_phone zygote_hook []).1) (full-IsVm)
      (full-IsClear) (zygote_hook-IsTables) refl refl
