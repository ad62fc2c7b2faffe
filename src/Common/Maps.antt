-- ===== src/Common/Maps.antt =====
-- `HashMap` and `HashSet` over number keys, as association lists and lists: what the program
-- sees of them is lookup, insertion, removal and size, never the iteration order.
use Prim.Native.Nat.{ℕ, suc}
use mathlib.Core.Path.{◌≡◌, refl}
use mathlib.Core.Bool.{Bool, true, false}
use mathlib.Core.List.{List, [], ◌∷◌}
use mathlib.Core.Option.{Option, none, some}
use native.Mathlib.Omega.{arith}
use lockframe.Common.Tests.{◌==◌, if◌then◌else◌, is_some}
use lockframe.Common.Lists.{length}

abbrev pub Map {ℓ} : Type ℓ → Type ℓ
Map V = List (ℕ × V)

module _ {ℓ} {V : Type ℓ} where
  unfoldable pub lookup : ℕ → Map V → Option V
  lookup key [] = none
  lookup key ((other, value) ∷ rest) = if other == key then some value else lookup key rest

  unfoldable pub insert : ℕ → V → Map V → Map V
  insert key value [] = (key, value) ∷ []
  insert key value ((other, old) ∷ rest) =
      let after = insert key value rest in
      if other == key then (key, value) ∷ rest else (other, old) ∷ after

  unfoldable pub remove : ℕ → Map V → Map V
  remove key [] = []
  remove key ((other, old) ∷ rest) =
      let after = remove key rest in if other == key then after else (other, old) ∷ after

  abbrev pub contains_key : ℕ → Map V → Bool
  contains_key key m = is_some (lookup key m)

  pub lookup-insert :
      (key other : ℕ) (value : V) (m : Map V)
      → lookup other (insert key value m) ≡ (if key == other then some value else lookup other m)
  unfolding lookup insert
  lookup-insert key other value [] = refl
  lookup-insert key other value (entry ∷ rest) = ground (arith, lookup-insert key other value rest)

  pub lookup-remove :
      (k j : ℕ) (m : Map V) → lookup j (remove k m) ≡ (if k == j then none else lookup j m)
  unfolding lookup remove
  lookup-remove k j [] = ground arith
  lookup-remove k j ((i, w) ∷ m) = ground (arith, lookup-remove k j m)

  -- Every key stands once: the lengths below count entries as `HashMap::len` does.
  abbrev pub UniqueKeys : Map V → Type ℓ
  UniqueKeys [] = Unit
  UniqueKeys ((j, w) ∷ m) = (lookup j m ≡ none) × UniqueKeys m

  pub insert-UniqueKeys : (k : ℕ) (v : V) (m : Map V) → UniqueKeys m → UniqueKeys (insert k v m)
  unfolding lookup insert
  insert-UniqueKeys k v [] u = (refl, tt)
  insert-UniqueKeys k v ((i, w) ∷ m) u =
      ground (arith, insert-UniqueKeys k v m u.1, lookup-insert k i v m)

  pub remove-UniqueKeys : (k : ℕ) (m : Map V) → UniqueKeys m → UniqueKeys (remove k m)
  unfolding lookup remove
  remove-UniqueKeys k [] u = tt
  remove-UniqueKeys k ((i, w) ∷ m) u =
      ground (arith, remove-UniqueKeys k m u.1, lookup-remove k i m)

  pub length-insert :
      (k : ℕ) (v : V) (m : Map V)
      → length (insert k v m) ≡ (if contains_key k m then length m else suc (length m))
  unfolding lookup insert
  length-insert k v [] = refl
  length-insert k v ((i, w) ∷ m) = ground (arith, length-insert k v m)

  pub remove_absent : (k : ℕ) (m : Map V) → lookup k m ≡ none → remove k m ≡ m
  unfolding lookup remove
  remove_absent k [] h = refl
  remove_absent k ((i, w) ∷ m) h = ground (arith, remove_absent k m)

  pub length-remove :
      (k : ℕ) (m : Map V)
      → UniqueKeys m
      → length m ≡ (if contains_key k m then suc (length (remove k m)) else length (remove k m))
  unfolding lookup remove
  length-remove k [] u = refl
  length-remove k ((i, w) ∷ m) u = ground (arith, length-remove k m u.1, remove_absent k m)

-- Sets of numbers.
unfoldable pub contains : ℕ → List ℕ → Bool
contains a [] = false
contains a (x ∷ xs) = if x == a then true else contains a xs

unfoldable pub set_insert : ℕ → List ℕ → List ℕ
set_insert a xs = if contains a xs then xs else a ∷ xs

-- `retain(|&id| id != a)`, and `HashSet::remove`.
unfoldable pub set_remove : ℕ → List ℕ → List ℕ
set_remove a [] = []
set_remove a (x ∷ xs) = let r = set_remove a xs in if x == a then r else x ∷ r

abbrev pub is_empty {ℓ} : {A : Type ℓ} → List A → Bool
is_empty [] = true
is_empty (x ∷ xs) = false

pub contains-set_insert :
    (a b : ℕ) (xs : List ℕ)
    → contains b (set_insert a xs) ≡ (if a == b then true else contains b xs)
unfolding contains set_insert
contains-set_insert a b [] = refl
contains-set_insert a b (x ∷ xs) = ground (arith, contains-set_insert a b xs)

pub contains-set_remove :
    (a b : ℕ) (xs : List ℕ)
    → contains b (set_remove a xs) ≡ (if a == b then false else contains b xs)
unfolding contains set_remove
contains-set_remove a b [] = ground arith
contains-set_remove a b (x ∷ xs) = ground (arith, contains-set_remove a b xs)
