-- ===== src/Jni/RoundTrip/Backup.antt =====
-- What the outer loop of `hook_jni_methods` backs up.
use zygisk_magisk_module.Prelude.{
  ℕ, suc, ◌≡◌, refl, ap, ◌∙◌, ◌↔◌, inl, inr, true, false, Option, none, some, List, [], ◌∷◌, ◌==◌,
  ==_iff, Bool-cases, Option-cases, map, arith, if◌then◌else◌, All,
}
use zygisk_magisk_module.World.{Text, NativeMethod}
use zygisk_magisk_module.Jni.{cleared_method, old_fn_of, replaced_fn, back_up}
use zygisk_magisk_module.Jni.Vm.{Shorty, has_key, resolved}
use zygisk_magisk_module.Jni.Registration.{settled}
use zygisk_magisk_module.Jni.RoundTrip.Writes.{has_key_iff}

-- The function that a method of a table had in the listing, if the method has a function now and
-- the class knows it.
abbrev pub old_of : Shorty → List NativeMethod → NativeMethod → Option ℕ
old_of shorty listed m =
    if m.fn == 0
    then none
    else (elim (shorty m.name m.signature) [ none ↦ none | some s ↦ old_fn_of m.name s listed ])

-- What the code gives back of a method: with its old function, or with none if the class does not
-- know the method.
unfoldable pub backed_up : Shorty → List NativeMethod → NativeMethod → NativeMethod
backed_up shorty listed m = elim (old_of shorty listed m) [
  | none ↦ settled shorty m
  | some old ↦ record m { fn = old }
]

-- How many methods of a table had a function.
unfoldable pub hooked_count : Shorty → List NativeMethod → List NativeMethod → ℕ
hooked_count shorty listed [] = 0
hooked_count shorty listed (m ∷ ms) =
    let rest = hooked_count shorty listed ms in
    elim (old_of shorty listed m) [ none ↦ rest | some old ↦ suc rest ]

or_rest_lem :
    (x y rest : Option ℕ)
    → rest ≡ elim y [ none ↦ none | some v ↦ x ]
    → (elim x [ none ↦ rest | some v ↦ some v ]) ≡ x
or_rest_lem none none rest e = e
or_rest_lem none (some v) rest e = e
or_rest_lem (some u) y rest e = refl

-- The search for a function among the new methods finds the old function of the method with a
-- key, if the function stands in the entry with that key only.
pub replaced_fn_lem :
    (w : NativeMethod → NativeMethod) (listed os : List NativeMethod) (fn : ℕ) (name s : Text)
    → ((o : NativeMethod) → ((w o).name ≡ o.name) × ((w o).signature ≡ o.signature))
    → All (λ o. ((w o).fn ≡ fn) ↔ (has_key name s o ≡ true)) os
    → replaced_fn (map w os) listed fn
      ≡ elim (old_fn_of name s os) [ none ↦ none | some x ↦ old_fn_of name s listed ]
unfolding replaced_fn old_fn_of
replaced_fn_lem w listed [] fn name s keeps all = refl
replaced_fn_lem w listed (o ∷ os) fn name s keeps (iff, all) =
    let ih = replaced_fn_lem w listed os fn name s keeps all in
    elim (Bool-cases (has_key name s o)) [
      | inl holds ↦
          let (name', signature') = (has_key_iff name s o).0 holds in
          let same : ((w o).fn == fn) ≡ true = (==_iff (w o).fn fn).1 (iff.1 holds) in
          let its_name = (keeps o).0 ∙ name' in
          let its_signature = (keeps o).1 ∙ signature' in
          let old : old_fn_of (w o).name (w o).signature listed ≡ old_fn_of name s listed =
            ap (λ x. old_fn_of x (w o).signature listed) its_name
            ∙ ap (λ x. old_fn_of name x listed) its_signature in
          rw same
            (rw holds (rw old (or_rest_lem (old_fn_of name s listed) (old_fn_of name s os) _ ih)))
      | inr fails ↦
          let other : ((w o).fn == fn) ≡ false = ground (arith, iff) in rw other (rw fails ih)
    ]

pub if_there_lem : (x y : Option ℕ) → x ≡ y → (elim x [ none ↦ none | some v ↦ y ]) ≡ y
if_there_lem none y e = e
if_there_lem (some v) y e = refl

-- One round of the outer loop, by the function that is found.
abbrev pub next : Option ℕ → NativeMethod → ℕ × List NativeMethod → ℕ × List NativeMethod
next none m (count, rest) = (count, m ∷ rest)
next (some old) m (count, rest) = (suc count, record m { fn = old } ∷ rest)

pub back_up-next :
    (new old : List NativeMethod) (m : NativeMethod) (ms : List NativeMethod)
    → back_up new old (m ∷ ms)
      ≡ next (if m.fn == 0 then none else replaced_fn new old m.fn) m (back_up new old ms)
unfolding back_up
back_up-next new old m ms = elim (Bool-cases (m.fn == 0)) [
  | inl null ↦ rw null refl
  | inr given ↦ rw given (elim (Option-cases (replaced_fn new old m.fn)) [
    | inl missing ↦ rw missing refl
    | inr (x, found) ↦ rw found refl
  ])
]

pub next_lem :
    (o : Option ℕ) (k m : NativeMethod)
    → ((old : ℕ) → record m { fn = old } ≡ record k { fn = old })
    → (count : ℕ) (rest : List NativeMethod)
    → next o m (count, rest) ≡ (
      elim o [ none ↦ count | some old ↦ suc count ],
      (elim o [ none ↦ m | some old ↦ record k { fn = old } ]) ∷ rest,
    )
next_lem none k m same count rest = refl
next_lem (some old) k m same count rest = ap (λ x. (suc count, x ∷ rest)) (same old)

pub settled-null : (shorty : Shorty) (m : NativeMethod) → (m.fn == 0) ≡ true → settled shorty m ≡ m
settled-null shorty m null = rw null refl

pub settled-unknown :
    (shorty : Shorty) (m : NativeMethod)
    → (m.fn == 0) ≡ false
    → shorty m.name m.signature ≡ none
    → settled shorty m ≡ cleared_method m
settled-unknown shorty m given unknown = rw given (rw (unknown, if◌then◌else◌) refl)

pub settled-known :
    (shorty : Shorty) (m : NativeMethod) (s : Text)
    → (m.fn == 0) ≡ false
    → shorty m.name m.signature ≡ some s
    → settled shorty m ≡ m
settled-known shorty m s given known = rw given (rw (known, if◌then◌else◌) refl)

pub settled-keeps :
    (shorty : Shorty) (m : NativeMethod) (old : ℕ)
    → record (settled shorty m) { fn = old } ≡ record m { fn = old }
settled-keeps shorty m old = elim (Bool-cases (m.fn == 0)) [
  | inl null ↦ rw null refl
  | inr given ↦ rw given (elim (Bool-cases (resolved shorty m)) [
    | inl known ↦ rw known refl
    | inr unknown ↦ rw unknown refl
  ])
]
