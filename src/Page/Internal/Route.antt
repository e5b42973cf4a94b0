-- ===== src/Page/Internal/Route.antt =====
-- Finding the child for a key on a valid internal page.
use rust_db.Common.{
  ℕ, ◌≡◌, refl, List, [], ◌∷◌, Ordering, Outcome, ok, All, Option, some, get_elem?, get_within,
  arith,
}
use rust_db.Common.Search.{scan, binary_search_by-scan}
use rust_db.Common.Sorted.{IsAscending, against, against-IsPartitioned}
use rust_db.Common.Sorted.Route.{route, IsRouted, route-IsRouted}
use rust_db.Types.{PageId}
use rust_db.PageError.{PageError}
use rust_db.Schema.Values.{VarInt}
use rust_db.Schema.Key.{Key, key_ord}
use rust_db.Page.{Page, internal}
use rust_db.Page.Invariants.{IsValid}
use rust_db.Page.Internal.{search_keys, body_child_index, find_child_index}

-- An internal page with the given parts.
abbrev pub internal_page : PageId → Option ℕ → List Key → List PageId → Page
internal_page id lsn ks children = record {
  page_id = id;
  last_update = lsn;
  body = internal ks children;
}

abbrev pub itself : Key → Key
itself k = k

abbrev returned : Ordering → Outcome PageError Ordering
returned c = ok c

keys_compare :
    (k : Key) (ks : List Key)
    → All (λ x. returned (key_ord.cmp x k) ≡ returned (against itself k x)) ks
keys_compare k [] = tt
keys_compare k (x ∷ xs) = (refl, keys_compare k xs)

pub search_keys-scan :
    (k : Key) (ks : List Key)
    → IsAscending itself ks
    → search_keys k ks ≡ ok (scan (against itself k) ks)
search_keys-scan k ks a =
    binary_search_by-scan (λ x. ok (key_ord.cmp x k)) (against itself k) ks (keys_compare k ks)
      (against-IsPartitioned itself k ks a)

module _ ⦃v : VarInt⦄ where
  -- On a valid internal page `find_child_index` returns an index and the child at that index, and
  -- the separators before the index are at most the key and those from the index on are above it.
  pub find_child_index-IsRouted :
      (id : PageId) (lsn : Option ℕ) (ks : List Key) (children : List PageId) (k : Key)
      → IsValid (internal_page id lsn ks children)
      → (i : ℕ) × (c : PageId) × (find_child_index (internal_page id lsn ks children) k
          ≡ ok (some (i, c)))
        × (get_elem? children i ≡ some c)
        × IsRouted itself k ks i
  unfolding find_child_index body_child_index
  find_child_index-IsRouted id lsn ks children k h =
      let routed = route-IsRouted itself k ks h.sound.2 in
      let (c, here) =
        get_within children (route (scan (against itself k) ks))
          (omega (arith, h.sound.0, routed.inside)) in
      (
        route (scan (against itself k) ks),
        c,
        rw (search_keys-scan k ks h.sound.2, here),
        here,
        routed,
      )
