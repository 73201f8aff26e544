-- ===== src/Common/Lists.antt =====
-- Lists measured, searched and filtered as the JavaScript array methods do it.
use Prim.Native.Nat.{ℕ, zero, suc, ◌+◌, ◌≤◌}
use mathlib.Core.Path.{◌≡◌, refl, sym, subst, ap, ◌∙◌}
use mathlib.Core.Logic.{inl, inr}
use mathlib.Core.Bool.{Bool, true, false, ◌&&◌, ◌||◌}
use mathlib.Core.Option.{Option, none, some}
use mathlib.Core.List.{List, [], ◌∷◌, ◌++◌, Memᴰ, map}
use native.Mathlib.Omega.{arith}
use repair_flow.Common.Tests.{some-eq-some, absurd_none, if◌then◌else◌, Bool-cases}

module _ {ℓ} {A : Type ℓ} where
  abbrev pub length : List A → ℕ
  length [] = 0
  length (x ∷ xs) = suc (length xs)

  abbrev pub is_empty : List A → Bool
  is_empty [] = true
  is_empty (_ ∷ _) = false

  -- `xs[0]`
  abbrev pub head? : List A → Option A
  head? [] = none
  head? (x ∷ _) = some x

  -- `xs.some(p)`
  abbrev pub any : (A → Bool) → List A → Bool
  any p [] = false
  any p (x ∷ xs) = p x || any p xs

  -- `xs.every(p)`
  abbrev pub all : (A → Bool) → List A → Bool
  all p [] = true
  all p (x ∷ xs) = p x && all p xs

  -- `xs.filter(p)`
  abbrev pub filter : (A → Bool) → List A → List A
  filter p [] = []
  filter p (x ∷ xs) = let rest = filter p xs in if p x then x ∷ rest else rest

  -- `xs.find(p)`
  abbrev pub find : (A → Bool) → List A → Option A
  find p [] = none
  find p (x ∷ xs) = if p x then some x else find p xs

  -- `xs.reduce((total, x) => total + f(x), 0)`
  abbrev pub sum_by : (A → ℕ) → List A → ℕ
  sum_by f [] = 0
  sum_by f (x ∷ xs) = f x + sum_by f xs

  abbrev pub count : (A → Bool) → List A → ℕ
  count p [] = 0
  count p (x ∷ xs) = let rest = count p xs in if p x then suc rest else rest

  abbrev pub All {κ} : (A → Type κ) → List A → Type κ
  All P [] = Unit
  All P (x ∷ xs) = P x × All P xs

  pub length-append : (xs ys : List A) → length (xs ++ ys) ≡ length xs + length ys
  length-append [] ys = omega arith
  length-append (x ∷ xs) ys = omega (arith, length-append xs ys)

  pub length-filter-le : (p : A → Bool) (xs : List A) → length (filter p xs) ≤ length xs
  length-filter-le p [] = omega arith
  length-filter-le p (x ∷ xs) = ground (arith, length-filter-le p xs)

  pub sum_by-append : (f : A → ℕ) (xs ys : List A) → sum_by f (xs ++ ys) ≡ sum_by f xs + sum_by f ys
  sum_by-append f [] ys = omega arith
  sum_by-append f (x ∷ xs) ys = omega (arith, sum_by-append f xs ys)

  pub sum_by-filter-le :
      (f : A → ℕ) (p : A → Bool) (xs : List A) → sum_by f (filter p xs) ≤ sum_by f xs
  sum_by-filter-le f p [] = omega arith
  sum_by-filter-le f p (x ∷ xs) = ground (arith, sum_by-filter-le f p xs)

  pub find-holds : (p : A → Bool) (xs : List A) (x : A) → find p xs ≡ some x → p x ≡ true
  find-holds p [] x h = cc
  find-holds p (y ∷ xs) x h = ground (arith, find-holds p xs x)

  pub find-Memᴰ : (p : A → Bool) (xs : List A) {x : A} → find p xs ≡ some x → Memᴰ x xs
  find-Memᴰ p [] h = cc
  find-Memᴰ p (y ∷ xs) h = elim (Bool-cases (p y)) [
    | inl yes_here ↦ Memᴰ.head (cc (rw yes_here at h))
    | inr not_here ↦ Memᴰ.tail (find-Memᴰ p xs (rw not_here at h))
  ]

  pub count-le : (p : A → Bool) (xs : List A) → count p xs ≤ length xs
  count-le p [] = omega arith
  count-le p (x ∷ xs) = ground (arith, count-le p xs)

  pub sum_by-filter_eq :
      (f : A → ℕ) (p q : A → Bool)
      → ((x : A) → p x ≡ q x)
      → (xs : List A) → sum_by f (filter p xs) ≡ sum_by f (filter q xs)
  sum_by-filter_eq f p q h [] = omega arith
  sum_by-filter_eq f p q h (x ∷ xs) = ground (arith, h x, sum_by-filter_eq f p q h xs)

  pub sum_by-filter_mono :
      (f : A → ℕ) (p q : A → Bool)
      → ((x : A) → p x ≡ true → q x ≡ true)
      → (xs : List A) → sum_by f (filter p xs) ≤ sum_by f (filter q xs)
  sum_by-filter_mono f p q h [] = omega arith
  sum_by-filter_mono f p q h (x ∷ xs) = ground (arith, h x, sum_by-filter_mono f p q h xs)

  pub filter-append :
      (p : A → Bool) (xs ys : List A) → filter p (xs ++ ys) ≡ filter p xs ++ filter p ys
  filter-append p [] ys = refl
  filter-append p (x ∷ xs) ys = elim (Bool-cases (p x)) [
    | inl yes_here ↦ rw (yes_here, filter-append p xs ys) refl
    | inr not_here ↦ rw (not_here, filter-append p xs ys) refl
  ]

  pub count-append : (p : A → Bool) (xs ys : List A) → count p (xs ++ ys) ≡ count p xs + count p ys
  count-append p [] ys = omega arith
  count-append p (x ∷ xs) ys = ground (arith, count-append p xs ys)

  -- Nothing passes a test that `some` finds nothing for.
  pub count-any : (p : A → Bool) (xs : List A) → any p xs ≡ false → count p xs ≡ 0
  count-any p [] h = omega arith
  count-any p (x ∷ xs) h = ground (arith, count-any p xs)

  -- `some` finds nothing, and a stronger test counts nothing.
  pub count-any_stronger :
      (p q : A → Bool)
      → ((x : A) → q x ≡ true → p x ≡ true)
      → (xs : List A) → any p xs ≡ false
      → count q xs ≡ 0
  count-any_stronger p q h [] none_found = omega arith
  count-any_stronger p q h (x ∷ xs) none_found = ground (arith, h x, count-any_stronger p q h xs)

  pub count-map_same :
      (p : A → Bool) (f : A → A)
      → ((x : A) → p (f x) ≡ p x)
      → (xs : List A) → count p (map f xs) ≡ count p xs
  count-map_same p f h [] = omega arith
  count-map_same p f h (x ∷ xs) = ground (arith, h x, count-map_same p f h xs)

  -- A change that keeps the test finds the changed value.
  pub find-map :
      (p : A → Bool) (f : A → A)
      → ((x : A) → p (f x) ≡ p x)
      → (xs : List A) {x : A} → find p xs ≡ some x
      → find p (map f xs) ≡ some (f x)
  find-map p f h [] found = cc
  find-map p f h (y ∷ xs) {x} found = elim (Bool-cases (p y)) [
    | inl yes_here ↦ rw (h y, yes_here) (cc (rw yes_here at found))
    | inr not_here ↦ rw (h y, not_here) (find-map p f h xs (rw not_here at found))
  ]

  -- A change that keeps the test, and the values that pass it, keeps what is filtered out.
  pub filter-map_fixed :
      (p : A → Bool) (f : A → A)
      → ((x : A) → p (f x) ≡ p x)
      → ((x : A) → p x ≡ true → f x ≡ x)
      → (xs : List A) → filter p (map f xs) ≡ filter p xs
  filter-map_fixed p f h k [] = refl
  filter-map_fixed p f h k (x ∷ xs) = elim (Bool-cases (p x)) [
    | inl yes_here ↦ rw (h x, yes_here, k x yes_here, filter-map_fixed p f h k xs) refl
    | inr not_here ↦ rw (h x, not_here, filter-map_fixed p f h k xs) refl
  ]

  pub find-only : (p : A → Bool) {x y : A} → find p (x ∷ []) ≡ some y → x ≡ y
  find-only p {x} h = elim (Bool-cases (p x)) [
    | inl yes_here ↦ some-eq-some (rw yes_here at h)
    | inr not_here ↦ absurd (absurd_none (rw not_here at h))
  ]

  pub All-tabulate {κ} : (P : A → Type κ) (xs : List A) → ((x : A) → Memᴰ x xs → P x) → All P xs
  All-tabulate P [] h = tt
  All-tabulate P (x ∷ xs) h = (h x (Memᴰ.head refl), All-tabulate P xs λ y m. h y (Memᴰ.tail m))

  pub All-at {κ} : (P : A → Type κ) (xs : List A) {x : A} → All P xs → Memᴰ x xs → P x
  All-at P [] all m = elim m [ ]
  All-at P (x ∷ xs) (here, rest) (Memᴰ.head e) = subst P (sym e) here
  All-at P (x ∷ xs) (here, rest) (Memᴰ.tail m) = All-at P xs rest m

module _ {ℓ κ} {A : Type ℓ} {B : Type κ} where
  pub Memᴰ-map : (f : A → B) (xs : List A) {x : A} → Memᴰ x xs → Memᴰ (f x) (map f xs)
  Memᴰ-map f [] m = elim m [ ]
  Memᴰ-map f (y ∷ xs) (Memᴰ.head e) = Memᴰ.head (ap f e)
  Memᴰ-map f (y ∷ xs) (Memᴰ.tail m) = Memᴰ.tail (Memᴰ-map f xs m)

module _ {ℓ κ μ} {A : Type ℓ} {B : Type κ} where
  pub All-map :
      (P : A → Type μ) (Q : B → Type μ) (f : A → B)
      → ((x : A) → P x → Q (f x))
      → (xs : List A) → All P xs
      → All Q (map f xs)
  All-map P Q f h [] all = tt
  All-map P Q f h (x ∷ xs) all = (h x all.0, All-map P Q f h xs all.1)

module _ {ℓ} {A : Type ℓ} where
  abbrev pub get_elem? : List A → ℕ → Option A
  get_elem? [] i = none
  get_elem? (x ∷ xs) zero = some x
  get_elem? (x ∷ xs) (suc i) = get_elem? xs i

  pub get_elem?-map :
      (f : A → A) (xs : List A) (i : ℕ) (x : A)
      → get_elem? xs i ≡ some x
      → get_elem? (map f xs) i ≡ some (f x)
  get_elem?-map f [] i x h = cc
  get_elem?-map f (y ∷ xs) zero x h = ap some (ap f (some-eq-some h))
  get_elem?-map f (y ∷ xs) (suc i) x h = get_elem?-map f xs i x h

  pub get_elem?-Memᴰ : (xs : List A) (i : ℕ) (x : A) → get_elem? xs i ≡ some x → Memᴰ x xs
  get_elem?-Memᴰ [] i x h = cc
  get_elem?-Memᴰ (y ∷ xs) zero x h = Memᴰ.head (sym (some-eq-some h))
  get_elem?-Memᴰ (y ∷ xs) (suc i) x h = Memᴰ.tail (get_elem?-Memᴰ xs i x h)

  pub Memᴰ-filter :
      (p : A → Bool) (xs : List A) {x : A} → Memᴰ x xs → p x ≡ true → Memᴰ x (filter p xs)
  Memᴰ-filter p [] m h = elim m [ ]
  Memᴰ-filter p (y ∷ xs) {x} (Memᴰ.head e) h =
      let here : p y ≡ true = ap p (sym e) ∙ h in rw here (Memᴰ.head e)
  Memᴰ-filter p (y ∷ xs) (Memᴰ.tail m) h = elim (Bool-cases (p y)) [
    | inl yes_here ↦ rw yes_here (Memᴰ.tail (Memᴰ-filter p xs m h))
    | inr not_here ↦ rw not_here (Memᴰ-filter p xs m h)
  ]

  -- A change that leaves one value alone leaves it where it stands.
  pub get_elem?-map_fixed :
      (f : A → A) (xs : List A) (i : ℕ) (x : A)
      → f x ≡ x
      → get_elem? xs i ≡ some x
      → get_elem? (map f xs) i ≡ some x
  get_elem?-map_fixed f [] i x e h = cc
  get_elem?-map_fixed f (y ∷ xs) zero x e h = cc
  get_elem?-map_fixed f (y ∷ xs) (suc i) x e h = get_elem?-map_fixed f xs i x e h
