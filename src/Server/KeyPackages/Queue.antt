-- ===== src/Server/KeyPackages/Queue.antt =====
-- Queues of users and key packages, pushed at the back and removed from anywhere: what
-- crates/lockframe-server/src/key_package_registry.rs keeps in two collections.
use lockframe.Common.{
  ℕ, suc, List, [], ◌∷◌, ◌++◌, ◌≡◌, refl, ap, none, some, if◌then◌else◌, length, Map, lookup,
  remove, set_remove, arith, ◌==◌, UniqueKeys,
}
use lockframe.Server.KeyPackages.{KeyPackageEntry}

-- The users of a queue, oldest first.
abbrev pub users : Map KeyPackageEntry → List ℕ
users [] = []
users ((user_id, e) ∷ q) = user_id ∷ users q

pub lookup-push :
    (k u : ℕ) (e : KeyPackageEntry) (q : Map KeyPackageEntry)
    → lookup u q ≡ none
    → lookup k (q ++ (u, e) ∷ []) ≡ (if u == k then some e else lookup k q)
unfolding lookup
lookup-push k u e [] h = refl
lookup-push k u e ((j, f) ∷ q) h = ground (arith, lookup-push k u e q)

pub push-UniqueKeys :
    (u : ℕ) (e : KeyPackageEntry) (q : Map KeyPackageEntry)
    → lookup u q ≡ none
    → UniqueKeys q
    → UniqueKeys (q ++ (u, e) ∷ [])
unfolding lookup
push-UniqueKeys u e [] h un = (refl, tt)
push-UniqueKeys u e ((j, f) ∷ q) h un =
    ground (arith, push-UniqueKeys u e q, un, lookup-push j u e q)

pub users-push :
    (u : ℕ) (e : KeyPackageEntry) (q : Map KeyPackageEntry)
    → users (q ++ (u, e) ∷ []) ≡ users q ++ u ∷ []
users-push u e [] = refl
users-push u e ((j, f) ∷ q) = ap (λ us. j ∷ us) (users-push u e q)

pub users-remove : (u : ℕ) (q : Map KeyPackageEntry) → users (remove u q) ≡ set_remove u (users q)
unfolding remove set_remove
users-remove u [] = refl
users-remove u ((j, f) ∷ q) = ground (arith, users-remove u q)

pub length-push :
    (u : ℕ) (e : KeyPackageEntry) (q : Map KeyPackageEntry)
    → length (q ++ (u, e) ∷ []) ≡ suc (length q)
length-push u e [] = refl
length-push u e ((j, f) ∷ q) = ap suc (length-push u e q)
