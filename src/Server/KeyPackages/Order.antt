-- ===== src/Server/KeyPackages/Order.antt =====
-- The key packages as one queue of users and entries, oldest first, and the registry as an
-- implementation of it (crates/lockframe-server/src/key_package_registry.rs).
use lockframe.Common.{
  ℕ, suc, List, [], ◌∷◌, ◌++◌, ◌≡◌, refl, ◌≤◌, ap, sym, ◌∙◌, true, false, none, some, is_some,
  if◌then◌else◌, leb, length, Map, lookup, insert, remove, contains_key, set_remove, Bool-cases,
  inl, inr, arith, ◌==◌, UniqueKeys, length-insert, length-remove, lookup-insert, lookup-remove,
  insert-UniqueKeys, remove-UniqueKeys, remove_absent,
}
use lockframe.Server.KeyPackages.Queue.{
  users, lookup-push, push-UniqueKeys, users-push, users-remove, length-push,
}
use lockframe.Server.KeyPackages.{
  KeyPackageEntry, KeyPackageRegistry, StoreResult, success, evicted, full, store_entry,
  evict_oldest, placed, take, new,
}

-- A registry stands for the queue `q`: its order is the users of `q`, its entries those of `q`,
-- each user has one place, and there are no more than the capacity.
pub record Queues (q : Map KeyPackageEntry) (g : KeyPackageRegistry) : Type 0 where
  pub order : g.lru_order ≡ users q
  pub contents : (k : ℕ) → lookup k g.entries ≡ lookup k q
  pub unique : UniqueKeys q
  pub unique_entries : UniqueKeys g.entries
  pub count_eq : length g.entries ≡ length q
  pub bounded : length q ≤ g.max_capacity

-- What a store does to the queue: a user who has a place loses it, otherwise the oldest goes if
-- the queue is at its capacity, and the user goes to the back; with no place at all, nothing.
abbrev make_room : ℕ → KeyPackageEntry → Map KeyPackageEntry → Map KeyPackageEntry × StoreResult
make_room u e [] = ([], full)
make_room u e (oldest ∷ q) = (q ++ (u, e) ∷ [], evicted)

abbrev pub pushed :
    ℕ → ℕ → KeyPackageEntry → Map KeyPackageEntry → Map KeyPackageEntry × StoreResult
pushed most u e q =
    if contains_key u q
    then (remove u q ++ (u, e) ∷ [], success)
    else if leb most (length q)
    then make_room u e q
    else (q ++ (u, e) ∷ [], success)

-- The registry that the last lines of `store` leave, over the queue `q` that remains.
placed-Queues :
    (g : KeyPackageRegistry) (u : ℕ) (e : KeyPackageEntry) (entries : Map KeyPackageEntry)
    (order : List ℕ) (q : Map KeyPackageEntry)
    → order ≡ users q
    → ((k : ℕ) → lookup k (insert u e entries) ≡ (if u == k then some e else lookup k q))
    → lookup u q ≡ none
    → UniqueKeys q
    → UniqueKeys entries
    → length (insert u e entries) ≡ suc (length q)
    → suc (length q) ≤ g.max_capacity
    → Queues (q ++ (u, e) ∷ []) (placed g u e entries order)
placed-Queues g u e entries order q same agree absent un un' len room = record {
  order = ap (λ us. us ++ u ∷ []) same ∙ sym (users-push u e q);
  contents = λ k. agree k ∙ sym (lookup-push k u e q absent);
  unique = push-UniqueKeys u e q absent un;
  unique_entries = insert-UniqueKeys u e entries un';
  count_eq = len ∙ sym (length-push u e q);
  bounded = rw (length-push u e q) room;
}

module _ (g : KeyPackageRegistry) (u : ℕ) (e : KeyPackageEntry) where
  evict-Queues :
      (q : Map KeyPackageEntry)
      → Queues q g
      → contains_key u g.entries ≡ false
      → Queues (make_room u e q).0 (evict_oldest g u e (users q)).0
        × ((make_room u e q).1 ≡ (evict_oldest g u e (users q)).1)
  unfolding evict_oldest lookup
  evict-Queues [] c new = (
    record {
      order = c.order;
      contents = c.contents;
      unique = tt;
      unique_entries = c.unique_entries;
      count_eq = c.count_eq;
      bounded = c.bounded;
    },
    refl,
  )
  evict-Queues ((o, f) ∷ q) c new = (
    placed-Queues g u e (remove o g.entries) (users q) q refl
        (λ k. ground (
          arith,
          lookup-insert u k e (remove o g.entries),
          lookup-remove o k g.entries,
          c.contents k,
          c.unique,
        ))
        (ground (arith, new, c.contents u)) c.unique.1
        (remove-UniqueKeys o g.entries c.unique_entries)
        (ground (
          arith,
          new,
          c.contents o,
          c.count_eq,
          length-insert u e (remove o g.entries),
          lookup-remove o u g.entries,
          length-remove o g.entries c.unique_entries,
        ))
        c.bounded,
    refl,
  )

  evict_from :
      (q : Map KeyPackageEntry) (order : List ℕ)
      → order ≡ users q
      → Queues q g
      → contains_key u g.entries ≡ false
      → Queues (make_room u e q).0 (evict_oldest g u e order).0
        × ((make_room u e q).1 ≡ (evict_oldest g u e order).1)
  evict_from q order same c new = rw same (evict-Queues q c new)

  pub store_entry-Queues :
      (q : Map KeyPackageEntry)
      → Queues q g
      → Queues (pushed g.max_capacity u e q).0 (store_entry g u e).0
        × ((pushed g.max_capacity u e q).1 ≡ (store_entry g u e).1)
  unfolding store_entry
  store_entry-Queues q c = elim (Bool-cases (contains_key u g.entries)) [
    | inl old ↦
        let old' : contains_key u q ≡ true = ap is_some (sym (c.contents u)) ∙ old in
        rw (old, old')
          (
            placed-Queues g u e g.entries (set_remove u g.lru_order) (remove u q)
                (ap (set_remove u) c.order ∙ sym (users-remove u q))
                (λ k.
                  ground (arith, lookup-insert u k e g.entries, lookup-remove u k q, c.contents k))
                (ground (arith, lookup-remove u u q)) (remove-UniqueKeys u q c.unique)
                c.unique_entries
                (ground (
                  arith,
                  old,
                  old',
                  c.count_eq,
                  length-insert u e g.entries,
                  length-remove u q c.unique,
                ))
                (ground (arith, old', c.bounded, length-remove u q c.unique)),
            refl,
          )
    | inr new ↦
        let new' : contains_key u q ≡ false = ap is_some (sym (c.contents u)) ∙ new in
        elim (Bool-cases (leb g.max_capacity (length q))) [
          | inl at_capacity ↦
              rw (new, new', c.count_eq, at_capacity) (evict_from q g.lru_order c.order c new)
          | inr room ↦
              rw (new, new', c.count_eq, room)
                (
                  placed-Queues g u e g.entries g.lru_order q c.order
                      (λ k. ground (arith, lookup-insert u k e g.entries, c.contents k))
                      (ground (arith, new')) c.unique c.unique_entries
                      (ground (arith, new, c.count_eq, length-insert u e g.entries))
                      (ground (arith, room)),
                  refl,
                )
        ]
  ]

module _ (g : KeyPackageRegistry) (u : ℕ) where
  pub take-Queues :
      (q : Map KeyPackageEntry)
      → Queues q g
      → Queues (remove u q) (take g u).0 × ((take g u).1 ≡ lookup u q)
  unfolding take
  take-Queues q c = elim (Bool-cases (contains_key u g.entries)) [
    | inl old ↦ rw old (
      record {
        order = ap (set_remove u) c.order ∙ sym (users-remove u q);
        contents =
            λ k. ground (arith, lookup-remove u k g.entries, lookup-remove u k q, c.contents k);
        unique = remove-UniqueKeys u q c.unique;
        unique_entries = remove-UniqueKeys u g.entries c.unique_entries;
        count_eq = ground (
          arith,
          c.contents u,
          c.count_eq,
          length-remove u g.entries c.unique_entries,
          length-remove u q c.unique,
        );
        bounded = ground (arith, c.bounded, length-remove u q c.unique);
      },
      c.contents u,
    )
    | inr new ↦
        rw new (rw (remove_absent u q (ground (arith, new, c.contents u))) (c, c.contents u))
  ]
