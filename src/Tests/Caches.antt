-- ===== src/Tests/Caches.antt =====
-- The theorem on the cache, applied to concrete values.
use twerk.Prelude.{String, true, false, ◌≡◌, refl, some, [], ◌∷◌, arith}
use twerk.Map.{get}
use twerk.Outcome.{Outcome, ok}
use twerk.Cache.{Cache, lookup, contains, modify, delete_expired, set_expiration, iterate, new}
use twerk.Cache.Expiring.{delete_expired-unseen}

abbrev two_items : Cache String
two_items = record new {
  items =
      ("old", record { object = "x"; expiration = some 5 })
      ∷ ("young", record { object = "y"; expiration = some 20 })
      ∷ [];
  on_evicted = true;
}

abbrev keep_value : String → Outcome String (Unit {0}) × String
keep_value v = (ok tt, v)

delete_expired-unseen_example :
    (lookup 12 "young" (delete_expired 10 (λ key. 11) two_items) ≡ lookup 12 "young" two_items)
    × (contains 12 "young" (delete_expired 10 (λ key. 11) two_items)
        ≡ contains 12 "young" two_items)
    × ((modify 12 "young" keep_value (delete_expired 10 (λ key. 11) two_items)).0
        ≡ (modify 12 "young" keep_value two_items).0)
unfolding get
delete_expired-unseen_example =
    delete_expired-unseen 10 (λ key. 11) 12 two_items "young" keep_value (refl, (refl, tt))
      (omega arith) (omega arith)

-- An item that has expired lives again.
revived : (set_expiration 10 "old" 7 two_items).0 ≡ true
unfolding set_expiration get
revived = refl

-- The first answer is `false`, and the second item is visited all the same.
not_stopped : (iterate 3 (λ key v s. (false, key)) two_items "none").1 ≡ "young"
unfolding iterate
not_stopped = refl
