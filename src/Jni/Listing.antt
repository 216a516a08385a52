-- ===== src/Jni/Listing.antt =====
-- What a class lists after several tables have been registered.
pub mod Hooked
use zygisk_magisk_module.Prelude.{
  ℕ, ◌≡◌, ◌≢◌, refl, sym, ap, ◌∙◌, ◌⊎◌, inl, inr, false, Option, none, some, List, [], ◌∷◌, ◌++◌,
  Bool-cases, Option-cases, map, if◌then◌else◌, All, All-mono, Any, Any-mono, Any-All, Occurs,
  All-Occurs,
}
use zygisk_magisk_module.World.{Text, NativeMethod}
use zygisk_magisk_module.Jni.{old_fn_of}
use zygisk_magisk_module.Jni.Vm.{
  Shorty, has_key, writes, write_one, write_all, IsEntry, IsClear, IsOwn,
}
use zygisk_magisk_module.Jni.RoundTrip.Writes.{
  has_key_iff, writes→Names, write_all_lem, write_all-keeps,
}

-- A method of a table: it has no function, or one of its own.
abbrev pub IsOurs :
    (Text → Text → ℕ) → (ℕ → Text × Text) → List NativeMethod → NativeMethod → Type 0
IsOurs address owner listed m = (m.fn ≡ 0) ⊎ IsOwn address owner listed m

writes-other : (shorty : Shorty) (m o : NativeMethod) → m.name ≢ o.name → writes shorty m o ≡ false
writes-other shorty m o other = elim (Bool-cases (writes shorty m o)) [
  | inl wrote ↦
      let (given, (s, known, name, signature)) = writes→Names shorty m o wrote in
      absurd (other (sym name))
  | inr missed ↦ missed
]

pub write_all-missed :
    (shorty : Shorty) (ms : List NativeMethod) (o : NativeMethod)
    → All (λ m. writes shorty m o ≡ false) ms
    → write_all shorty ms o ≡ o
unfolding write_all write_one
write_all-missed shorty [] o all = refl
write_all-missed shorty (m ∷ ms) o (missed, all) =
    ap (λ b. write_all shorty ms (record o { fn = if b then m.fn else o.fn })) missed
    ∙ write_all-missed shorty ms o all

-- Methods of other names leave an entry alone.
pub write_all-other :
    (shorty : Shorty) (ms : List NativeMethod) (o : NativeMethod)
    → All (λ m. m.name ≢ o.name) ms
    → write_all shorty ms o ≡ o
write_all-other shorty ms o all =
    write_all-missed shorty ms o (All-mono _ _ (λ m other. writes-other shorty m o other) ms all)

pub write_all-append :
    (shorty : Shorty) (ws ms : List NativeMethod) (o : NativeMethod)
    → write_all shorty (ws ++ ms) o ≡ write_all shorty ms (write_all shorty ws o)
unfolding write_all
write_all-append shorty [] ms o = refl
write_all-append shorty (w ∷ ws) ms o = write_all-append shorty ws ms (write_one shorty w o)

pub map-write_all-append :
    (shorty : Shorty) (ws ms os : List NativeMethod)
    → map (write_all shorty ms) (map (write_all shorty ws) os)
      ≡ map (write_all shorty (ws ++ ms)) os
map-write_all-append shorty ws ms [] = refl
map-write_all-append shorty ws ms (o ∷ os) = rw (write_all-append shorty ws ms o) (
    ap (λ x. write_all shorty ms (write_all shorty ws o) ∷ x)
      (map-write_all-append shorty ws ms os))

-- The function that the registration of methods leaves under a key.
abbrev written : Shorty → List NativeMethod → Text → Text → Option ℕ → Option ℕ
written shorty ws name signature none = none
written shorty ws name signature (some fn) =
    some (write_all shorty ws (record { name = name; signature = signature; fn = fn })).fn

old_fn_of-written :
    (shorty : Shorty) (ws os : List NativeMethod) (name s : Text)
    → old_fn_of name s (map (write_all shorty ws) os)
      ≡ written shorty ws name s (old_fn_of name s os)
unfolding old_fn_of
old_fn_of-written shorty ws [] name s = refl
old_fn_of-written shorty ws (o ∷ os) name s =
    let n = write_all shorty ws o in
    let same : has_key name s n ≡ has_key name s o =
      ap (has_key name s) (write_all-keeps shorty ws o) in
    elim (Bool-cases (has_key name s o)) [
      | inl holds ↦
          let (name', signature') = (has_key_iff name s o).0 holds in
          let entry : o ≡ record { name = name; signature = s; fn = o.fn } =
            ap (λ n. record o { name = n }) name'
            ∙ ap (λ q. record { name = name; signature = q; fn = o.fn }) signature' in
          rw (same ∙ holds) (rw holds (ap (λ x. some (write_all shorty ws x).fn) entry))
      | inr fails ↦ rw (same ∙ fails) (rw fails (old_fn_of-written shorty ws os name s))
    ]

-- Under another name the old functions are the same.
pub old_fn_of-other :
    (shorty : Shorty) (ws os : List NativeMethod) (name s : Text)
    → All (λ w. w.name ≢ name) ws
    → old_fn_of name s (map (write_all shorty ws) os) ≡ old_fn_of name s os
old_fn_of-other shorty ws os name s others =
    old_fn_of-written shorty ws os name s ∙ (elim (Option-cases (old_fn_of name s os)) [
      | inl unlisted ↦ rw unlisted refl
      | inr (fn, found) ↦ rw found (
          ap (λ x. some x.fn)
            (write_all-other shorty ws (record { name = name; signature = s; fn = fn }) others))
    ])

module _ (shorty : Shorty) (address : Text → Text → ℕ) (owner : ℕ → Text × Text)
    (listed : List NativeMethod) where
  -- The function of an entry is the old one, or that of a method with the entry's name.
  pub fn-write_all :
      (ws : List NativeMethod) (o : NativeMethod)
      → All (IsOurs address owner listed) ws
      → ((write_all shorty ws o).fn ≡ o.fn)
        ⊎ Any
            (λ w.
              IsOwn address owner listed w
              × (w.fn ≢ 0)
              × (o.name ≡ w.name)
              × ((write_all shorty ws o).fn ≡ w.fn))
            ws
  fn-write_all ws o ours = elim (write_all_lem shorty (IsOurs address owner listed) ws o ours) [
    | inl (kept, missed) ↦ inl kept
    | inr wrote ↦ inr (
        Any-mono _ _
          (λ w (q, h, e).
            let (given, (s, known, name, signature)) = writes→Names shorty w o h in
            elim q [ inl null ↦ absurd (given null) | inr its_own ↦ (its_own, given, name, e) ])
          ws wrote)
  ]

  fn-write_all-given :
      (ws : List NativeMethod) (o : NativeMethod)
      → All (IsOurs address owner listed) ws
      → o.fn ≢ 0
      → (write_all shorty ws o).fn ≢ 0
  fn-write_all-given ws o ours given = elim (fn-write_all ws o ours) [
    | inl kept ↦ λ null. given (sym kept ∙ null)
    | inr wrote ↦
        let (w, (its_own, its_fn, name, e), rest) =
          Any-All _ (λ w. Occurs w ws) ws wrote (All-Occurs ws) in
        λ null. its_fn (sym e ∙ null)
  ]

  IsEntry-written :
      (ws : List NativeMethod) (o : NativeMethod)
      → All (IsOurs address owner listed) ws
      → IsEntry listed o
      → IsEntry (map (write_all shorty ws) listed) (write_all shorty ws o)
  IsEntry-written ws o ours (found, given) = (
    ap (λ x. old_fn_of x.name x.signature (map (write_all shorty ws) listed))
          (write_all-keeps shorty ws o)
        ∙ old_fn_of-written shorty ws listed o.name o.signature
        ∙ ap (written shorty ws o.name o.signature) found,
    fn-write_all-given ws o ours given,
  )

  All-IsEntry-written :
      (ws os : List NativeMethod)
      → All (IsOurs address owner listed) ws
      → All (IsEntry listed) os
      → All (IsEntry (map (write_all shorty ws) listed)) (map (write_all shorty ws) os)
  All-IsEntry-written ws [] ours all = tt
  All-IsEntry-written ws (o ∷ os) ours (entry, all) =
      (IsEntry-written ws o ours entry, All-IsEntry-written ws os ours all)

  pub IsClear-written :
      (ws : List NativeMethod)
      → All (IsOurs address owner listed) ws
      → IsClear shorty listed
      → IsClear shorty (map (write_all shorty ws) listed)
  IsClear-written ws ours clear = record {
    one_signature = clear.one_signature;
    entries = All-IsEntry-written ws listed ours clear.entries;
  }

  is_fresh-written :
      (ws os : List NativeMethod) (m : NativeMethod)
      → All (IsOurs address owner listed) ws
      → All (λ w. w.name ≢ m.name) ws
      → IsOwn address owner listed m
      → All (λ o. o.fn ≢ m.fn) os
      → All (λ o. o.fn ≢ m.fn) (map (write_all shorty ws) os)
  is_fresh-written ws [] m ours others its_own all = tt
  is_fresh-written ws (o ∷ os) m ours others its_own (fresh, all) = (
    elim (fn-write_all ws o ours) [
      | inl kept ↦ λ same. fresh (sym kept ∙ same)
      | inr wrote ↦
          let (w, (own', its_fn, name, e), other) =
            Any-All _ (λ w. w.name ≢ m.name) ws wrote others in
          λ same. other (
            sym (ap (λ x. x.0) own'.its_owner)
            ∙ ap (λ f. (owner f).0) (sym e ∙ same)
            ∙ ap (λ x. x.0) its_own.its_owner)
    ],
    is_fresh-written ws os m ours others its_own all,
  )

  pub IsOurs-written :
      (ws : List NativeMethod) (m : NativeMethod)
      → All (IsOurs address owner listed) ws
      → All (λ w. w.name ≢ m.name) ws
      → IsOurs address owner listed m
      → IsOurs address owner (map (write_all shorty ws) listed) m
  IsOurs-written ws m ours others (inl null) = inl null
  IsOurs-written ws m ours others (inr its_own) = inr (record {
    its_address = its_own.its_address;
    its_owner = its_own.its_owner;
    is_fresh = is_fresh-written ws listed m ours others its_own its_own.is_fresh;
  })
