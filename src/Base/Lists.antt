-- ===== src/Base/Lists.antt =====
-- Lists of rows and lists of ids: what JavaScript's `filter`, `includes`, `slice` and `new Set` give.
use mathlib.Core.Bool.{Bool, true, false, ◌&&◌, not}
use mathlib.Core.List.{List, [], ◌∷◌, map}
use mathlib.Core.Logic.{inl, inr}
use mathlib.Core.Option.{Option, none, some}
use mathlib.Core.Path.{◌≡◌, refl}
use Prim.Native.Nat.{ℕ, zero, suc, ◌≤◌, ◌<◌}
use Prim.Native.String.{String}
use native.Mathlib.Omega.{arith}
use text.Mathlib.Text.{◌==◌}
use text.Mathlib.TextEquality.{eq_iff}
use multi_tenant_project_man.Base.Tests.{if◌then◌else◌, Bool-cases, length, any}

module _ {ℓ} {A : Type ℓ} where
  abbrev pub filter : (A → Bool) → List A → List A
  filter p [] = []
  filter p (x ∷ xs) = if p x then x ∷ filter p xs else filter p xs

  abbrev pub head : List A → Option A
  head [] = none
  head (x ∷ xs) = some x

  abbrev pub take : ℕ → List A → List A
  take zero xs = []
  take (suc n) [] = []
  take (suc n) (x ∷ xs) = x ∷ take n xs

  abbrev pub drop : ℕ → List A → List A
  drop zero xs = xs
  drop (suc n) [] = []
  drop (suc n) (x ∷ xs) = drop n xs

  pub length-filter : (p : A → Bool) (xs : List A) → length (filter p xs) ≤ length xs
  length-filter p [] = omega arith
  length-filter p (x ∷ xs) = ground (arith, length-filter p xs)

  pub filter-filter :
      (p q : A → Bool) (xs : List A) → filter p (filter q xs) ≡ filter (λ x. q x && p x) xs
  filter-filter p q [] = refl
  filter-filter p q (x ∷ xs) = ground (arith, filter-filter p q xs)

pub length-map {ℓ κ} :
    {A : Type ℓ} {B : Type κ} (f : A → B) (xs : List A) → length (map f xs) ≡ length xs
length-map f [] = refl
length-map f (x ∷ xs) = omega (arith, length-map f xs)

-- `ids.includes(id)`
abbrev pub contains : List String → String → Bool
contains ids id = any (λ i. i == id) ids

abbrev pub remove : String → List String → List String
remove id ids = filter (λ i. not (i == id)) ids

-- `Array.from(new Set(ids))`: the first of equal texts stays.
abbrev pub unique : List String → List String
unique [] = []
unique (id ∷ ids) = id ∷ remove id (unique ids)

abbrev pub is_distinct : List String → Bool
is_distinct [] = true
is_distinct (id ∷ ids) = not (contains ids id) && is_distinct ids

pub contains-remove :
    (id j : String) (ids : List String)
    → contains (remove id ids) j ≡ (contains ids j && not (j == id))
contains-remove id j [] = refl
contains-remove id j (i ∷ ids) =
    ground (arith, contains-remove id j ids, eq_iff i id, eq_iff i j, eq_iff j id)

pub contains-unique : (ids : List String) (j : String) → contains (unique ids) j ≡ contains ids j
contains-unique [] j = refl
contains-unique (i ∷ ids) j =
    ground (arith, contains-remove i j (unique ids), contains-unique ids j, eq_iff i j, eq_iff j i)

is_distinct-remove :
    (id : String) (ids : List String) → is_distinct ids ≡ true → is_distinct (remove id ids) ≡ true
is_distinct-remove id [] h = refl
is_distinct-remove id (i ∷ ids) h =
    ground (arith, is_distinct-remove id ids, contains-remove id i ids)

pub is_distinct-unique : (ids : List String) → is_distinct (unique ids) ≡ true
is_distinct-unique [] = refl
is_distinct-unique (i ∷ ids) = ground (
  arith,
  is_distinct-remove i (unique ids) (is_distinct-unique ids),
  contains-remove i i (unique ids),
  eq_iff i i,
)

pub length-remove_lt :
    (id : String) (ids : List String) → contains ids id ≡ true → length (remove id ids) < length ids
length-remove_lt id [] h = absurd (ground arith)
length-remove_lt id (i ∷ ids) h =
    ground (arith, length-remove_lt id ids, length-filter (λ j. not (j == id)) ids)

length-remove_distinct :
    (id : String) (ids : List String)
    → is_distinct ids ≡ true
    → length ids ≤ suc (length (remove id ids))
length-remove_distinct id [] h = omega arith
length-remove_distinct id (i ∷ ids) h = elim (Bool-cases (i == id)) [
  | inl same ↦ ground (arith, kept id ids, eq_iff i id)
  | inr other ↦ ground (arith, length-remove_distinct id ids)
]
  where
    kept :
        (j : String) (js : List String) → contains js j ≡ false → length js ≤ length (remove j js)
    kept j [] absent = omega arith
    kept j (k ∷ js) absent = ground (arith, kept j js)

-- Distinct ids that all stand in a list which is no longer are all of it.
pub covers :
    (xs ys : List String)
    → is_distinct xs ≡ true
    → is_distinct ys ≡ true
    → ((z : String) → contains xs z ≡ true → contains ys z ≡ true)
    → length ys ≤ length xs
    → (z : String) → contains ys z ≡ true
    → contains xs z ≡ true
covers [] [] dx dy sub few z inside = inside
covers [] (y ∷ ys) dx dy sub few z inside = absurd (omega arith)
covers (x ∷ xs) ys dx dy sub few z inside = elim (Bool-cases (x == z)) [
  | inl same ↦ ground arith
  | inr other ↦
      let rest =
        covers xs (remove x ys) (ground arith) (is_distinct-remove x ys dy)
          (λ u within.
            ground (arith, sub u, within, contains-remove x u ys, eq_iff u x, eq_iff x u, dx))
          (ground (arith, length-remove-contained x ys, sub x, eq_iff x x)) z
          (ground (arith, contains-remove x z ys, eq_iff z x, eq_iff x z)) in
      ground (arith, rest)
]
  where
    length-remove-contained :
        (j : String) (js : List String)
        → contains js j ≡ true
        → suc (length (remove j js)) ≤ length js
    length-remove-contained j js there = omega (arith, length-remove_lt j js there)

-- Distinct ids that all stand in a list are no more than it has.
pub length_le_of_is_distinct :
    (xs ys : List String)
    → is_distinct xs ≡ true
    → ((z : String) → contains xs z ≡ true → contains ys z ≡ true)
    → length xs ≤ length ys
length_le_of_is_distinct [] ys dx sub = omega arith
length_le_of_is_distinct (x ∷ xs) ys dx sub =
    let rest = length_le_of_is_distinct xs (remove x ys) (ground arith) (λ u within.
      ground (arith, sub u, within, contains-remove x u ys, eq_iff u x, eq_iff x u, dx)) in
    omega (arith, rest, length-remove_lt x ys (sub x (ground (arith, eq_iff x x))))
