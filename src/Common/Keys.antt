-- ===== src/Common/Keys.antt =====
-- Lists of keys, and rows that are told apart by theirs.
use Prim.Native.Nat.{ℕ, ◌≤◌, ◌<◌}
use Prim.Native.String.{String}
use text.Mathlib.Text.{◌==◌ as str_eq}
use text.Mathlib.TextEquality.{eq_iff}
use mathlib.Core.Path.{◌≡◌, subst, ap}
use mathlib.Core.Logic.{inl, inr}
use mathlib.Core.Bool.{Bool, true, false, not, ◌&&◌, ◌||◌}
use mathlib.Core.Option.{some}
use mathlib.Core.List.{List, [], ◌∷◌, Memᴰ, map}
use native.Mathlib.Omega.{arith}
use repair_flow.Common.Tests.{◌==◌, if◌then◌else◌, Bool-cases, some-eq-some}
use repair_flow.Common.Lists.{count, find}

-- `new Set(keys).has(k)`
abbrev pub contains : String → List String → Bool
contains k [] = false
contains k (x ∷ xs) = str_eq x k || contains k xs

-- `new Set(keys).size === keys.length`
abbrev pub all_distinct : List String → Bool
all_distinct [] = true
all_distinct (x ∷ xs) = (if contains x xs then false else true) && all_distinct xs

module _ {ℓ} {A : Type ℓ} (key : A → String) where
  pub contains-map : (xs : List A) {x : A} → Memᴰ x xs → contains (key x) (map key xs) ≡ true
  contains-map [] m = elim m [ ]
  contains-map (y ∷ xs) {x} (Memᴰ.head e) = ground (arith, eq_iff (key y) (key x), ap key e)
  contains-map (y ∷ xs) {x} (Memᴰ.tail m) = ground (arith, contains-map xs m)

-- How many of the rows have a key that was not seen: the measure of a loop that marks what it visits.
module _ {ℓ} {A : Type ℓ} (key : A → String) where
  abbrev pub unseen : List String → List A → ℕ
  unseen seen xs = count (λ x. not (contains (key x) seen)) xs

  unseen-le :
      (k : String) (seen : List String) (xs : List A) → unseen (k ∷ seen) xs ≤ unseen seen xs
  unseen-le k seen [] = omega arith
  unseen-le k seen (x ∷ xs) = ground (arith, unseen-le k seen xs)

  pub unseen-lt :
      (x : A) (seen : List String) (xs : List A)
      → contains (key x) seen ≡ false
      → Memᴰ x xs
      → unseen (key x ∷ seen) xs < unseen seen xs
  unseen-lt x seen [] new m = elim m [ ]
  unseen-lt x seen (y ∷ xs) new (Memᴰ.head e) =
      rw (← e) (ground (arith, eq_iff (key x) (key x), unseen-le (key x) seen xs))
  unseen-lt x seen (y ∷ xs) new (Memᴰ.tail m) =
      ground (arith, unseen-le (key x) seen xs, unseen-lt x seen xs new m)

-- A test that only rows of one key pass.
module _ {ℓ} {A : Type ℓ} (key : A → String) (p : A → Bool) (k : String)
    (keyed : (x : A) → p x ≡ true → str_eq (key x) k ≡ true) where
  count-absent : (xs : List A) → contains k (map key xs) ≡ false → count p xs ≡ 0
  count-absent [] h = omega arith
  count-absent (x ∷ xs) h = ground (arith, keyed x, count-absent xs)

  -- If the keys differ and one row passes, it is the row that is found by the key.
  pub find-counted :
      (xs : List A) {x : A}
      → all_distinct (map key xs) ≡ true
      → find (λ y. str_eq (key y) k) xs ≡ some x
      → (count p xs == 1) ≡ true
      → p x ≡ true
  find-counted [] distinct found h = cc
  find-counted (y ∷ xs) {x} distinct found h = elim (Bool-cases (str_eq (key y) k)) [
    | inl yes_here ↦
        let same = some-eq-some (rw yes_here at found) in
        let absent : contains k (map key xs) ≡ false = ground (arith, eq_iff (key y) k, distinct) in
        subst (λ z. p z ≡ true) same (ground (arith, h, count-absent xs absent))
    | inr not_here ↦
        find-counted xs (ground (arith, distinct)) (rw not_here at found)
          (ground (arith, h, keyed y, not_here))
  ]
