-- ===== src/Prelude/Predicates.antt =====
-- Predicates on the entries of a list, by recursion: they compute to tuples and sums.
use mathlib.Core.Path.{◌≡◌, refl, ap, ◌∙◌, subst}
use mathlib.Core.Logic.{◌⊎◌, inl, inr}
use mathlib.Core.List.{List, [], ◌∷◌, ◌++◌, map}

module _ {ℓ} {A : Type ℓ} where
  -- Some entry has the property.
  abbrev pub Any : (A → Type 0) → List A → Type 0
  Any P [] = ⊥
  Any P (x ∷ xs) = P x ⊎ Any P xs

  -- All entries have it.
  abbrev pub All : (A → Type 0) → List A → Type 0
  All P [] = Unit {0}
  All P (x ∷ xs) = P x × All P xs

  pub All-append : (P : A → Type 0) (xs ys : List A) → All P xs → All P ys → All P (xs ++ ys)
  All-append P [] ys hx hy = hy
  All-append P (x ∷ xs) ys hx hy = (hx.0, All-append P xs ys hx.1 hy)

  pub All-mono : (P Q : A → Type 0) → ((x : A) → P x → Q x) → (xs : List A) → All P xs → All Q xs
  All-mono P Q h [] all = tt
  All-mono P Q h (x ∷ xs) all = (h x all.0, All-mono P Q h xs all.1)

-- The entry is in the list.
abbrev pub Occurs : {A : Type 0} → A → List A → Type 0
Occurs a = Any (λ x. x ≡ a)

module _ {ℓ} {A : Type ℓ} where
  pub Any-mono : (P Q : A → Type 0) → ((x : A) → P x → Q x) → (xs : List A) → Any P xs → Any Q xs
  Any-mono P Q h [] h' = elim h' [ ]
  Any-mono P Q h (x ∷ xs) (inl here) = inl (h x here)
  Any-mono P Q h (x ∷ xs) (inr there) = inr (Any-mono P Q h xs there)

  -- An entry with the property, where all have another.
  pub Any-All : (P Q : A → Type 0) (xs : List A) → Any P xs → All Q xs → (x : A) × P x × Q x
  Any-All P Q [] h all = elim h [ ]
  Any-All P Q (x ∷ xs) (inl here) (q, all) = (x, here, q)
  Any-All P Q (x ∷ xs) (inr there) (q, all) = Any-All P Q xs there all

pub Occurs-All : {A : Type 0} (P : A → Type 0) (a : A) (xs : List A) → Occurs a xs → All P xs → P a
Occurs-All P a xs h all = let (x, same, p) = Any-All (λ x. x ≡ a) P xs h all in subst P same p

pub All-Occurs : {A : Type 0} (xs : List A) → All (λ x. Occurs x xs) xs
All-Occurs [] = tt
All-Occurs (x ∷ xs) = (inl refl, All-mono _ _ (λ y h. inr h) xs (All-Occurs xs))

module _ {A B : Type 0} where
  pub map-cong : (f g : A → B) (xs : List A) → All (λ x. f x ≡ g x) xs → map f xs ≡ map g xs
  map-cong f g [] all = refl
  map-cong f g (x ∷ xs) (same, all) =
      ap (λ y. y ∷ map f xs) same ∙ ap (λ ys. g x ∷ ys) (map-cong f g xs all)

  pub map-undone :
      (f : B → A) (g : A → B) (xs : List A) → All (λ x. f (g x) ≡ x) xs → map f (map g xs) ≡ xs
  map-undone f g [] all = refl
  map-undone f g (x ∷ xs) (same, all) =
      ap (λ y. y ∷ map f (map g xs)) same ∙ ap (λ ys. x ∷ ys) (map-undone f g xs all)

pub map-same : {A : Type 0} (f : A → A) (xs : List A) → ((x : A) → f x ≡ x) → map f xs ≡ xs
map-same f [] same = refl
map-same f (x ∷ xs) same = ap (λ y. y ∷ map f xs) (same x) ∙ ap (λ ys. x ∷ ys) (map-same f xs same)
