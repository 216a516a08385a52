-- ===== src/Jni/Restore/Slots.antt =====
-- One of the three tables of `hook_zygote_jni`, at a round of its loop over Zygote's native methods.
use zygisk_magisk_module.Prelude.{
  ℕ, ◌≡◌, ◌≢◌, refl, sym, ap, subst, ◌∙◌, ◌⊎◌, inl, inr, Bool, true, false, not, List, [], ◌∷◌,
  ◌++◌, ◌==◌, map, All, All-append, All-mono, Occurs,
}
use zygisk_magisk_module.World.{Text, NativeMethod}
use zygisk_magisk_module.Jni.Vm.{Shorty, write_all}
use zygisk_magisk_module.Jni.RoundTrip.Writes.{write_all-keeps}
use zygisk_magisk_module.Jni.RoundTrip.Backup.{backed_up, hooked_count}
use zygisk_magisk_module.Jni.Listing.{IsOurs, write_all-other, write_all-append}
use zygisk_magisk_module.Jni.Listing.Hooked.{IsOther, IsNamed}

-- No overload of the name.
abbrev pub IsSingle : Text → List NativeMethod → Type 0
IsSingle name [] = Unit {0}
IsSingle name (m ∷ ms) = (m.name ≡ name → IsOther name ms) × IsSingle name ms

-- A table for a name: its methods bear the name, which the class has once at most.
pub record IsTable (address : Text → Text → ℕ) (owner : ℕ → Text × Text)
    (listed : List NativeMethod) (name : Text) (ms : List NativeMethod) : Type 0 where
  pub named : IsNamed name ms
  pub ours : All (IsOurs address owner listed) ms
  pub single : IsSingle name listed

-- A table before and now, where the methods `ws` have been registered and `ms` are left to visit.
pub data Standing (shorty : Shorty) (listed ws ms : List NativeMethod) (missing : Bool)
    (name : Text) (before now : List NativeMethod) (replaced : Bool) : Type 0 where
  waits :
      now ≡ before
      → replaced ≡ false
      → IsOther name ws
      → (missing ≡ true) ⊎ All (λ o. o.name ≡ name → Occurs o ms) listed
      → Standing shorty listed ws ms missing name before now replaced
  hooked :
      now ≡ map (backed_up shorty listed) before
      → replaced ≡ not (hooked_count shorty listed before == 0)
      → ((o : NativeMethod) → o.name ≡ name → write_all shorty ws o ≡ write_all shorty before o)
      → (missing ≡ true) ⊎ (hooked_count shorty listed before ≢ 0)
      → IsOther name ms
      → Standing shorty listed ws ms missing name before now replaced

module _ (shorty : Shorty) (listed : List NativeMethod) where
  -- A visit to a method of another name.
  pub Standing-skip :
      (ws ms : List NativeMethod) (m : NativeMethod) (name : Text) (before now : List NativeMethod)
      (replaced missing : Bool)
      → m.name ≢ name
      → Standing shorty listed ws (m ∷ ms) false name before now replaced
      → Standing shorty listed ws ms missing name before now replaced
  Standing-skip ws ms m name before now replaced missing other
        (waits same untold others (inl stopped)) =
      absurd (cc)
  Standing-skip ws ms m name before now replaced missing other
        (waits same untold others (inr left)) =
      waits same untold others (
        inr (
          All-mono _ _
            (λ o h its_name. elim (h its_name) [
              | inl here ↦ absurd (other (ap (λ x. x.name) here ∙ its_name))
              | inr there ↦ there
            ])
            listed left))
  Standing-skip ws ms m name before now replaced missing other
        (hooked table told wrote (inl stopped) others) =
      absurd (cc)
  Standing-skip ws ms m name before now replaced missing other
        (hooked table told wrote (inr some_hooked) others) =
      hooked table told wrote (inr some_hooked) others.1

  -- The registration of a table of another name.
  pub Standing-append :
      (ws vs ms : List NativeMethod) (name : Text) (before now : List NativeMethod)
      (replaced missing : Bool)
      → IsOther name vs
      → Standing shorty listed ws ms missing name before now replaced
      → Standing shorty listed (ws ++ vs) ms missing name before now replaced
  Standing-append ws vs ms name before now replaced missing others'
        (waits same untold others left) =
      waits same untold (All-append _ ws vs others others') left
  Standing-append ws vs ms name before now replaced missing others'
        (hooked table told wrote counts others) =
      hooked table told
        (λ o its_name.
          write_all-append shorty ws vs o
          ∙ write_all-other shorty vs (write_all shorty ws o) (
              subst (λ n. IsOther n vs)
                (sym (ap (λ x. x.name) (write_all-keeps shorty ws o) ∙ its_name)) others')
          ∙ wrote o its_name)
        counts others

  -- The loop stops.
  pub Standing-stop :
      (ws ms : List NativeMethod) (name : Text) (before now : List NativeMethod) (replaced : Bool)
      → Standing shorty listed ws ms true name before now replaced
      → Standing shorty listed ws [] true name before now replaced
  Standing-stop ws ms name before now replaced (waits same untold others left) =
      waits same untold others (inl refl)
  Standing-stop ws ms name before now replaced (hooked table told wrote counts others) =
      hooked table told wrote (inl refl) tt
