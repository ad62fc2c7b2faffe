-- ===== src/Server/KeyPackages/Refinement.antt =====
-- The registry of key packages as its callers see it, against a queue of users and packages
-- (crates/lockframe-server/src/key_package_registry.rs).
use lockframe.Common.{
  ℕ, suc, List, [], ◌∷◌, ◌≡◌, refl, ap, sym, ◌∙◌, Bool, Option, none, some, is_some, if◌then◌else◌,
  ltb, leb, length, Map, lookup, remove, contains_key, Bool-cases, inl, inr, arith,
}
use lockframe.Server.KeyPackages.{
  KeyPackageEntry, KeyPackageRegistry, StoreResult, store_entry, evict_oldest, take, store, stamped,
  with_capacity, has, count, u64_max,
}
use lockframe.Server.KeyPackages.Order.{Queues, pushed, store_entry-Queues, take-Queues}

pub data Call : Type 0 where
  publish : ℕ → KeyPackageEntry → Call
  fetch : ℕ → Call
  ask : ℕ → Call
  total : Call

pub data Reply : Type 0 where
  stored : StoreResult → Reply
  fetched : Option KeyPackageEntry → Reply
  answered : Bool → Reply
  counted : ℕ → Reply
  panicked : Reply

-- The registry behind its mutex: `none` once a call has panicked and poisoned it.
after_store : Option (KeyPackageRegistry × StoreResult) → Option KeyPackageRegistry × Reply
after_store none = (none, panicked)
after_store (some (g, result)) = (some g, stored result)

unfoldable pub step : Option KeyPackageRegistry → Call → Option KeyPackageRegistry × Reply
unfolding after_store
step none call = (none, panicked)
step (some g) (publish u e) = after_store (store g u e)
step (some g) (fetch u) = (some (take g u).0, fetched (take g u).1)
step (some g) (ask u) = (some g, answered (has g u))
step (some g) total = (some g, counted (count g))

unfoldable pub replies : Option KeyPackageRegistry → List Call → List Reply
replies g [] = []
replies g (call ∷ calls) = (step g call).1 ∷ replies (step g call).0 calls

-- The specification: packages in the order of their publication, numbered from 0, and the same
-- calls on them.
abbrev pub Spec : Type 0
Spec = Option (ℕ × Map KeyPackageEntry)

unfoldable pub spec_step : ℕ → Spec → Call → Spec × Reply
spec_step most none call = (none, panicked)
spec_step most (some (n, q)) (publish u e) =
    if ltb n u64_max
    then (
      some (suc n, (pushed most u (record e { timestamp = n }) q).0),
      stored (pushed most u (record e { timestamp = n }) q).1,
    )
    else (none, panicked)
spec_step most (some (n, q)) (fetch u) = (some (n, remove u q), fetched (lookup u q))
spec_step most (some (n, q)) (ask u) = (some (n, q), answered (contains_key u q))
spec_step most (some (n, q)) total = (some (n, q), counted (length q))

unfoldable pub spec_replies : ℕ → Spec → List Call → List Reply
spec_replies most q [] = []
spec_replies most q (call ∷ calls) =
    (spec_step most q call).1 ∷ spec_replies most (spec_step most q call).0 calls

-- After a panic every call panics on either side.
replies-poisoned :
    (most : ℕ) (calls : List Call) → replies none calls ≡ spec_replies most none calls
unfolding replies spec_replies step spec_step
replies-poisoned most [] = refl
replies-poisoned most (call ∷ calls) = ap (λ rs. panicked ∷ rs) (replies-poisoned most calls)

evict_oldest-counts :
    (g : KeyPackageRegistry) (u : ℕ) (e : KeyPackageEntry) (order : List ℕ)
    → ((evict_oldest g u e order).0.timestamp_counter ≡ suc g.timestamp_counter)
      × ((evict_oldest g u e order).0.max_capacity ≡ g.max_capacity)
unfolding evict_oldest
evict_oldest-counts g u e [] = (refl, refl)
evict_oldest-counts g u e (o ∷ order) = (refl, refl)

store_entry-counts :
    (g : KeyPackageRegistry) (u : ℕ) (e : KeyPackageEntry)
    → ((store_entry g u e).0.timestamp_counter ≡ suc g.timestamp_counter)
      × ((store_entry g u e).0.max_capacity ≡ g.max_capacity)
unfolding store_entry
store_entry-counts g u e = elim (Bool-cases (contains_key u g.entries)) [
  | inl old ↦ rw old (refl, refl)
  | inr new ↦ elim (Bool-cases (leb g.max_capacity (length g.entries))) [
    | inl at_capacity ↦ rw (new, at_capacity) (evict_oldest-counts g u e g.lru_order)
    | inr room ↦ rw (new, room) (refl, refl)
  ]
]

take-counts :
    (g : KeyPackageRegistry) (u : ℕ)
    → ((take g u).0.timestamp_counter ≡ g.timestamp_counter)
      × ((take g u).0.max_capacity ≡ g.max_capacity)
unfolding take
take-counts g u = elim (Bool-cases (contains_key u g.entries)) [
  | inl old ↦ rw old (refl, refl)
  | inr new ↦ rw new (refl, refl)
]

store_entry-pushed :
    (g : KeyPackageRegistry) (u : ℕ) (e : KeyPackageEntry) (q : Map KeyPackageEntry) (most n : ℕ)
    → Queues q g
    → g.max_capacity ≡ most
    → g.timestamp_counter ≡ n
    → Queues (pushed most u (record e { timestamp = n }) q).0 (store_entry g u (stamped g e)).0
      × ((pushed most u (record e { timestamp = n }) q).1 ≡ (store_entry g u (stamped g e)).1)
store_entry-pushed g u e q most n c m t = rw (← m, ← t) (store_entry-Queues g u (stamped g e) q c)

cons_eq : {x y : Reply} {xs ys : List Reply} → x ≡ y → xs ≡ ys → x ∷ xs ≡ y ∷ ys
cons_eq {y = y} {xs = xs} e e' = ap (λ z. z ∷ xs) e ∙ ap (λ zs. y ∷ zs) e'

-- Any registry that stands for a queue replies as the queue does.
replies-queue :
    (calls : List Call) (g : KeyPackageRegistry) (most n : ℕ) (q : Map KeyPackageEntry)
    → Queues q g
    → g.max_capacity ≡ most
    → g.timestamp_counter ≡ n
    → replies (some g) calls ≡ spec_replies most (some (n, q)) calls
unfolding replies spec_replies step spec_step store after_store has count
replies-queue [] g most n q c m t = refl
replies-queue (publish u e ∷ calls) g most n q c m t =
    let (next, said) = store_entry-pushed g u e q most n c m t in
    let (counted_up, same) = store_entry-counts g u (stamped g e) in
    let before = ap (λ k. ltb k u64_max) t in
    elim (Bool-cases (ltb n u64_max)) [
      | inl low ↦
          rw (before ∙ low, low)
            (cons_eq (ap stored (sym said))
              (replies-queue calls _ most (suc n) _ next (same ∙ m) (counted_up ∙ ap suc t)))
      | inr high ↦ rw (before ∙ high, high) (cons_eq refl (replies-poisoned most calls))
    ]
replies-queue (fetch u ∷ calls) g most n q c m t =
    let (next, said) = take-Queues g u q c in
    let (kept, same) = take-counts g u in
    cons_eq (ap fetched said)
      (replies-queue calls (take g u).0 most n (remove u q) next (same ∙ m) (kept ∙ t))
replies-queue (ask u ∷ calls) g most n q c m t =
    cons_eq (ap (λ e. answered (is_some e)) (c.contents u)) (replies-queue calls g most n q c m t)
replies-queue (total ∷ calls) g most n q c m t =
    cons_eq (ap counted c.count_eq) (replies-queue calls g most n q c m t)

-- Whatever is published, fetched and asked, a new registry of any capacity gives the replies of a
-- queue in which a user has one package at most, publishing again moves the user to the back, a
-- full queue loses its oldest package, and a fetch takes the package out.
pub replies-queued :
    (most : ℕ) (calls : List Call)
    → replies (some (with_capacity most)) calls ≡ spec_replies most (some (0, [])) calls
unfolding with_capacity lookup
replies-queued most calls =
    replies-queue calls (with_capacity most) most 0 []
      record {
        order = refl;
        contents = λ k. refl;
        unique = tt;
        unique_entries = tt;
        count_eq = refl;
        bounded = omega arith;
      }
      refl refl
