-- ===== src/Jni/RoundTrip/Table.antt =====
-- What the outer loop of `hook_jni_methods` backs up of a table.
use zygisk_magisk_module.Prelude.{
  ℕ, ◌≡◌, ◌≢◌, refl, sym, ap, ◌∙◌, ◌↔◌, ◌⊎◌, inl, inr, true, false, Option, none, some, List, [],
  ◌∷◌, ◌==◌, ==_cases, Option-cases, map, if◌then◌else◌, All, All-mono, Any, Any-All, Occurs,
  Occurs-All, All-Occurs,
}
use zygisk_magisk_module.World.{Text, NativeMethod}
use zygisk_magisk_module.Jni.{old_fn_of, replaced_fn, back_up}
use zygisk_magisk_module.Jni.Vm.{Shorty, has_key, writes, write_all, IsClear, IsOwn}
use zygisk_magisk_module.Jni.Registration.{settled}
use zygisk_magisk_module.Jni.RoundTrip.Writes.{
  has_key_iff, Names, writes→Names, Names→writes, write_all_lem, write_all-keeps,
}
use zygisk_magisk_module.Jni.RoundTrip.Backup.{
  back_up-next, backed_up, hooked_count, if_there_lem, next, next_lem, old_of, replaced_fn_lem,
  settled-keeps, settled-known, settled-null, settled-unknown,
}

-- The parameters of a table in place: what its class lists, and where its functions come from.
module _ (shorty : Shorty) (address : Text → Text → ℕ) (owner : ℕ → Text × Text)
    (listed ms : List NativeMethod) (clear : IsClear shorty listed)
    (own : All (λ m. (m.fn ≡ 0) ⊎ IsOwn address owner listed m) ms) where
  method-IsOwn : (m : NativeMethod) → Occurs m ms → m.fn ≢ 0 → IsOwn address owner listed m
  method-IsOwn m there given =
      elim (Occurs-All (λ m. (m.fn ≡ 0) ⊎ IsOwn address owner listed m) m ms there own) [
        | inl null ↦ absurd (given null)
        | inr its_own ↦ its_own
      ]

  -- The method whose function an entry has got, if that of a method is written to it.
  writer :
      (o : NativeMethod)
      → Any
          (λ m.
            ((m.fn ≡ 0) ⊎ IsOwn address owner listed m)
            × (writes shorty m o ≡ true)
            × ((write_all shorty ms o).fn ≡ m.fn))
          ms
      → (m : NativeMethod) × IsOwn address owner listed m
        × Names shorty m o
        × ((write_all shorty ms o).fn ≡ m.fn)
  writer o any =
      let (m, (q, wrote, e), there) = Any-All _ (λ m. Occurs m ms) ms any (All-Occurs ms) in
      let names = writes→Names shorty m o wrote in (m, method-IsOwn m there names.0, names, e)

  -- An entry has the function of a method exactly if it is the method's own entry.
  fn-write_all_iff :
      (m o : NativeMethod) (s : Text)
      → Occurs m ms
      → Occurs o listed
      → m.fn ≢ 0
      → shorty m.name m.signature ≡ some s
      → ((write_all shorty ms o).fn ≡ m.fn) ↔ (has_key m.name s o ≡ true)
  fn-write_all_iff m o s there listed_there given known =
      let its_own = method-IsOwn m there given in
      (
        λ same. (elim (write_all_lem shorty _ ms o own) [
          | inl (kept, none_writes) ↦ absurd (
              Occurs-All (λ o. o.fn ≢ m.fn) o listed listed_there its_own.is_fresh
                (sym kept ∙ same))
          | inr any ↦
              let (m', own', (given', (s', known', name', signature')), e) = writer o any in
              let owners : (m.name, m.signature) ≡ (m'.name, m'.signature) =
                sym its_own.its_owner ∙ ap owner (sym same ∙ e) ∙ own'.its_owner in
              let keys : some s ≡ some s' = sym known ∙ ap (λ x. shorty x.0 x.1) owners ∙ known' in
              (has_key_iff m.name s o).1 (name' ∙ sym (ap (λ x. x.0) owners), cc)
        ]),
        λ key. (elim (write_all_lem shorty _ ms o own) [
          | inl (kept, none_writes) ↦
              let (name, signature) = (has_key_iff m.name s o).0 key in
              let names : Names shorty m o = (given, (s, known, name, signature)) in
              let wrote = Names→writes shorty m o names in
              let missed = Occurs-All (λ m. writes shorty m o ≡ false) m ms there none_writes in
              absurd (cc)
          | inr any ↦
              let (m', own', (given', (s', known', name', signature')), e) = writer o any in
              let (name, signature) = (has_key_iff m.name s o).0 key in
              let known'' : shorty m.name m'.signature ≡ some s = cc in
              let one = clear.one_signature m.name m.signature m'.signature s known known'' in
              let address = its_own.its_address in let address' = own'.its_address in e ∙ cc
        ]),
      )

  replaced_fn-old_of :
      (m : NativeMethod) (s : Text)
      → Occurs m ms
      → m.fn ≢ 0
      → shorty m.name m.signature ≡ some s
      → replaced_fn (map (write_all shorty ms) listed) listed m.fn ≡ old_fn_of m.name s listed
  replaced_fn-old_of m s there given known =
      let iffs =
        All-mono _ _ (λ o listed_there. fn-write_all_iff m o s there listed_there given known)
          listed (All-Occurs listed) in
      let keeps : (o : NativeMethod)
          → ((write_all shorty ms o).name ≡ o.name)
            × ((write_all shorty ms o).signature ≡ o.signature) =
        λ o. (
          ap (λ x. x.name) (write_all-keeps shorty ms o),
          ap (λ x. x.signature) (write_all-keeps shorty ms o),
        ) in
      replaced_fn_lem (write_all shorty ms) listed listed m.fn m.name s keeps iffs
      ∙ if_there_lem (old_fn_of m.name s listed) _ refl

  replaced_fn-settled :
      (k : NativeMethod)
      → Occurs k ms
      → (if (settled shorty k).fn == 0
          then none
          else replaced_fn (map (write_all shorty ms) listed) listed (settled shorty k).fn)
        ≡ old_of shorty listed k
  replaced_fn-settled k there =
      let found : NativeMethod → Option ℕ = λ x.
        if x.fn == 0 then none else replaced_fn (map (write_all shorty ms) listed) listed x.fn in
      elim (==_cases k.fn 0) [
        | inl (test, null) ↦ ap found (settled-null shorty k test) ∙ rw test refl
        | inr (test, given) ↦ elim (Option-cases (shorty k.name k.signature)) [
          | inl unknown ↦
              ap found (settled-unknown shorty k test unknown) ∙ rw test (rw unknown refl)
          | inr (s, known) ↦
              ap found (settled-known shorty k s test known)
              ∙ rw test (rw known (replaced_fn-old_of k s there given known))
        ]
      ]

  pub back_up_lem :
      (ks : List NativeMethod)
      → All (λ k. Occurs k ms) ks
      → back_up (map (write_all shorty ms) listed) listed (map (settled shorty) ks)
        ≡ (hooked_count shorty listed ks, map (backed_up shorty listed) ks)
  unfolding back_up hooked_count backed_up
  back_up_lem [] all = refl
  back_up_lem (k ∷ ks) (there, all) =
      let new = map (write_all shorty ms) listed in
      back_up-next new listed (settled shorty k) (map (settled shorty) ks)
      ∙ ap (λ x. next x (settled shorty k) (back_up new listed (map (settled shorty) ks)))
          (replaced_fn-settled k there)
      ∙ ap (λ x. next (old_of shorty listed k) (settled shorty k) x) (back_up_lem ks all)
      ∙ next_lem (old_of shorty listed k) k (settled shorty k) (settled-keeps shorty k)
          (hooked_count shorty listed ks) (map (backed_up shorty listed) ks)
