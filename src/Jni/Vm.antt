-- ===== src/Jni/Vm.antt =====
-- What the code relies on of the Java VM, for a class: RegisterNatives of one method gives this
-- method the function, or fails if the class has no native method with the name and the signature;
-- and the runtime callbacks list the native methods with their functions, by name and by a
-- signature of their own, the shorty.
use zygisk_magisk_module.Prelude.{
  ℕ, ◌≡◌, ◌≢◌, Bool, true, false, not, ◌&&◌, Option, none, some, List, [], ◌∷◌, ◌==◌, map,
  if◌then◌else◌, All,
}
use zygisk_magisk_module.World.{
  Text, NativeMethod, Call, get_native_methods, register_natives, exception_clear, Env,
}
use zygisk_magisk_module.Plt.{eq_text}
use zygisk_magisk_module.Jni.{old_fn_of}

-- The shorty of the class's native method with a name and a signature, if there is one.
abbrev pub Shorty : Type 0
Shorty = Text → Text → Option Text

abbrev pub has_key : Text → Text → NativeMethod → Bool
has_key name shorty o = eq_text o.name name && eq_text o.signature shorty

abbrev pub resolved : Shorty → NativeMethod → Bool
resolved shorty m = elim (shorty m.name m.signature) [ none ↦ false | some s ↦ true ]

-- The registration of a method changes this entry of the listing.
unfoldable pub writes : Shorty → NativeMethod → NativeMethod → Bool
writes shorty m o =
    not (m.fn == 0)
    && (elim (shorty m.name m.signature) [ none ↦ false | some s ↦ has_key m.name s o ])

unfoldable pub write_one : Shorty → NativeMethod → NativeMethod → NativeMethod
write_one shorty m o = record o { fn = if writes shorty m o then m.fn else o.fn }

unfoldable pub write_all : Shorty → List NativeMethod → NativeMethod → NativeMethod
write_all shorty [] o = o
write_all shorty (m ∷ ms) o = write_all shorty ms (write_one shorty m o)

pub record IsVm (env : Env) (clazz : ℕ) (shorty : Shorty) : Type 0 where
  pub resolves :
      (t : List Call) (m : NativeMethod) → env.registers_natives t clazz m ≡ resolved shorty m
  pub registered :
      (t : List Call) (m : NativeMethod)
      → m.fn ≢ 0
      → env.native_methods (register_natives clazz m ∷ t) clazz
        ≡ map (write_one shorty m) (env.native_methods t clazz)
  pub asked :
      (t : List Call)
      → env.native_methods (get_native_methods clazz ∷ t) clazz ≡ env.native_methods t clazz
  pub cleared :
      (t : List Call) → env.native_methods (exception_clear ∷ t) clazz ≡ env.native_methods t clazz

-- An entry of a listing: the search for its key finds it, and it has a function.
abbrev pub IsEntry : List NativeMethod → NativeMethod → Type 0
IsEntry listed o = (old_fn_of o.name o.signature listed ≡ some o.fn) × (o.fn ≢ 0)

-- No two native methods of the class have the same name and the same shorty, and each has a
-- function.
pub record IsClear (shorty : Shorty) (listed : List NativeMethod) : Type 0 where
  pub one_signature :
      (name signature signature' s : Text)
      → shorty name signature ≡ some s
      → shorty name signature' ≡ some s
      → signature ≡ signature'
  pub entries : All (IsEntry listed) listed

-- A method of a table whose functions tell the methods apart, and are in no entry of the listing.
pub record IsOwn (address : Text → Text → ℕ) (owner : ℕ → Text × Text) (listed : List NativeMethod)
    (m : NativeMethod) : Type 0 where
  pub its_address : m.fn ≡ address m.name m.signature
  pub its_owner : owner m.fn ≡ (m.name, m.signature)
  pub is_fresh : All (λ o. o.fn ≢ m.fn) listed
