-- ===== src/Asl/Graph/Search.antt =====
-- One round of the breadth-first search: what it visits, what it queues, and the work that is left.
use twerk.Prelude.{
  ℕ, suc, String, ◌≡◌, refl, sym, ap, subst, ◌↔◌, ◌⊎◌, inl, inr, true, false, List, [], ◌∷◌, ◌++◌,
  ◌+◌, ◌≤◌, length, length-append, Has, Has-append_left, Has-append_last, Has-append_cases, arith,
  eq_iff, Bool-cases,
}
use twerk.Asl.Graph.{contains, Frontier, offer, scan}

pub contains_iff : (xs : List String) (a : String) → (contains xs a ≡ true) ↔ Has a xs
contains_iff [] a = (λ h. absurd (cc), λ h. absurd h)
contains_iff (x ∷ xs) a = ground (arith, eq_iff x a, contains_iff xs a)

pub not-Has : (xs : List String) (a : String) → contains xs a ≡ false → ¬ Has a xs
not-Has xs a h i = cc ((contains_iff xs a).1 i)

Has-concat : (a b : String) (xs : List String) → Has a (xs ++ b ∷ []) ↔ (Has a xs ⊎ (b ≡ a))
Has-concat a b xs = (
  Has-append_cases a b xs,
  λ h. elim h [
    | inl i ↦ Has-append_left a xs (b ∷ []) i
    | inr e ↦ subst (λ c. Has a (xs ++ c ∷ [])) (sym e) (Has-append_last a xs)
  ],
)

-- The names in a list that were not visited.
abbrev pub unseen : List String → List String → ℕ
unseen visited [] = 0
unseen visited (x ∷ xs) =
    let rest = unseen visited xs in elim (contains visited x) [ true ↦ rest | false ↦ suc rest ]

pub unseen_le : (visited xs : List String) → unseen visited xs ≤ length xs
unseen_le visited [] = omega arith
unseen_le visited (x ∷ xs) = ground (arith, unseen_le visited xs)

contains-concat :
    (xs : List String) (b a : String)
    → (contains (xs ++ b ∷ []) a ≡ true) ↔ ((contains xs a ≡ true) ⊎ (b ≡ a))
contains-concat xs b a =
    ground (arith, contains_iff (xs ++ b ∷ []) a, contains_iff xs a, Has-concat a b xs)

unseen-visit_le :
    (visited : List String) (b : String) (xs : List String)
    → unseen (visited ++ b ∷ []) xs ≤ unseen visited xs
unseen-visit_le visited b [] = omega arith
unseen-visit_le visited b (x ∷ xs) =
    ground (arith, contains-concat visited b x, unseen-visit_le visited b xs)

-- A visit of a name of the list leaves one name less.
unseen-visit :
    (visited : List String) (b : String) (xs : List String)
    → contains visited b ≡ false
    → Has b xs
    → suc (unseen (visited ++ b ∷ []) xs) ≤ unseen visited xs
unseen-visit visited b [] h i = absurd i
unseen-visit visited b (x ∷ xs) h (inl e) =
    ground
      (arith, contains-concat visited b x, ap (contains visited) e, unseen-visit_le visited b xs)
unseen-visit visited b (x ∷ xs) h (inr i) =
    ground (arith, contains-concat visited b x, unseen-visit visited b xs h i)

module _ (all : List String) where
  abbrev pub work : Frontier → ℕ
  work f = unseen f.visited all + length f.queue

  offer-work : (t : String) (f : Frontier) → Has t all → work (offer t f) ≤ work f
  unfolding offer
  offer-work t f i = ground (arith, unseen-visit f.visited t all, length-append f.queue (t ∷ []))

  -- A round over targets of the machine adds no work.
  pub scan-work :
      (ts : List String) (f : Frontier)
      → ((t : String) → Has t ts → Has t all)
      → work (scan ts f) ≤ work f
  unfolding scan
  scan-work [] f h = omega arith
  scan-work (t ∷ ts) f h =
      omega (arith, offer-work t f (h t (inl refl)), scan-work ts (offer t f) (λ u i. h u (inr i)))

-- What is visited after a round: what was, and the targets.
offer-visited :
    (t : String) (f : Frontier) (a : String)
    → Has a (offer t f).visited ↔ (Has a f.visited ⊎ (t ≡ a))
unfolding offer
offer-visited t f a = elim (Bool-cases (contains f.visited t)) [
  | inl e ↦
      rw e (inl, λ h. elim h [ inl i ↦ i | inr p ↦ (contains_iff f.visited a).0 (rw (← p) e) ])
  | inr e ↦ rw e (Has-concat a t f.visited)
]

offer_keeps : (t : String) (f : Frontier) (a : String) → Has a f.queue → Has a (offer t f).queue
unfolding offer
offer_keeps t f a h = elim (Bool-cases (contains f.visited t)) [
  | inl e ↦ rw e h
  | inr e ↦ rw e (Has-append_left a f.queue (t ∷ []) h)
]

offer_queues :
    (t : String) (f : Frontier) (a : String)
    → Has a (offer t f).visited
    → Has a f.visited ⊎ Has a (offer t f).queue
unfolding offer
offer_queues t f a h =
    ground (arith, Has-concat a t f.visited, Has-concat a t f.queue, offer-visited t f a)

-- Whatever waits in the queue is visited.
abbrev pub QueuedVisited : Frontier → Type 0
QueuedVisited f = (a : String) → Has a f.queue → Has a f.visited

offer-QueuedVisited : (t : String) (f : Frontier) → QueuedVisited f → QueuedVisited (offer t f)
unfolding offer
offer-QueuedVisited t f h a = ground (arith, h a, Has-concat a t f.visited, Has-concat a t f.queue)

pub scan-visited :
    (ts : List String) (f : Frontier) (a : String)
    → Has a (scan ts f).visited ↔ (Has a f.visited ⊎ Has a ts)
unfolding scan
scan-visited [] f a = (inl, λ h. elim h [ inl i ↦ i | inr i ↦ absurd i ])
scan-visited (t ∷ ts) f a = ground (arith, offer-visited t f a, scan-visited ts (offer t f) a)

pub scan_keeps :
    (ts : List String) (f : Frontier) (a : String) → Has a f.queue → Has a (scan ts f).queue
unfolding scan
scan_keeps [] f a h = h
scan_keeps (t ∷ ts) f a h = scan_keeps ts (offer t f) a (offer_keeps t f a h)

-- What a round visits for the first time waits in the queue after it.
pub scan_queues :
    (ts : List String) (f : Frontier) (a : String)
    → Has a (scan ts f).visited
    → Has a f.visited ⊎ Has a (scan ts f).queue
unfolding scan
scan_queues [] f a h = inl h
scan_queues (t ∷ ts) f a h = elim (scan_queues ts (offer t f) a h) [
  | inl i ↦ elim (offer_queues t f a i) [
    | inl j ↦ inl j
    | inr j ↦ inr (scan_keeps ts (offer t f) a j)
  ]
  | inr i ↦ inr i
]

pub scan-QueuedVisited :
    (ts : List String) (f : Frontier) → QueuedVisited f → QueuedVisited (scan ts f)
unfolding scan
scan-QueuedVisited [] f h = h
scan-QueuedVisited (t ∷ ts) f h = scan-QueuedVisited ts (offer t f) (offer-QueuedVisited t f h)
