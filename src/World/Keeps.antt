-- ===== src/World/Keeps.antt =====
-- Invariants of actions on the datastore: one rule for each way to build an action.
use twerk.Prelude.{
  Bool, true, false, ◌≡◌, refl, Option, none, some, inl, inr, Bool-cases, if◌then◌else◌,
}
use twerk.World.{
  Error, Result, ok, err, Datastore, World, Message, Env, M, pure, fail, continue, ◌>>=◌, ok_or,
  lift, gets, ignore_error, map_err, now, new_short_uuid, publish,
}

-- Whether `m` returns or fails, a datastore with `P` is left with `P`.
pub record Keeps {A : Type 0} (P : Datastore → Type 0) (m : M A) : Type 0 where
  pub at : (w : World) → P w.store → P (m w).1.store

module _ {A : Type 0} {P : Datastore → Type 0} where
  pub Keeps-pure : (a : A) → Keeps P (pure a)
  Keeps-pure a = record { at = λ w h. h }

  pub Keeps-fail : (e : Error) → Keeps P (fail {A = A} e)
  Keeps-fail e = record { at = λ w h. h }

  pub Keeps-lift : (r : Result A) → Keeps P (lift r)
  Keeps-lift r = record { at = λ w h. h }

  pub Keeps-gets : (f : World → A) → Keeps P (gets f)
  Keeps-gets f = record { at = λ w h. h }

  pub Keeps-ok_or : (e : Error) (o : Option A) → Keeps P (ok_or e o)
  Keeps-ok_or e none = record { at = λ w h. h }
  Keeps-ok_or e (some a) = record { at = λ w h. h }

  pub Keeps-ignore_error : (m : M A) → Keeps P m → Keeps P (ignore_error m)
  unfolding ignore_error
  Keeps-ignore_error m k = record { at = λ w h. k.at w h }

  pub Keeps-if : (b : Bool) (m n : M A) → Keeps P m → Keeps P n → Keeps P (if b then m else n)
  Keeps-if true m n km kn = km
  Keeps-if false m n km kn = kn

pub Keeps-map_err :
    {P : Datastore → Type 0} (f : Error → Error) (m : M (Unit {0}))
    → Keeps P m
    → Keeps P (map_err f m)
unfolding map_err
Keeps-map_err f m k = record { at = λ w h. k.at w h }

module _ {P : Datastore → Type 0} (env : Env) where
  pub Keeps-now : Keeps P (now env)
  unfolding now
  Keeps-now = record { at = λ w h. h }

  pub Keeps-new_short_uuid : Keeps P (new_short_uuid env)
  unfolding new_short_uuid
  Keeps-new_short_uuid = record { at = λ w h. h }

  pub Keeps-publish : (m : Message) → Keeps P (publish env m)
  unfolding publish
  Keeps-publish m = record {
    at = λ w h. elim (Bool-cases (env.accepts w.sent m)) [ inl e ↦ rw e h | inr e ↦ rw e h ];
  }

module _ {A B : Type 0} {P : Datastore → Type 0} where
  Keeps-continue :
      (r : Result A) (f : A → M B) (w : World)
      → ((a : A) → r ≡ ok a → Keeps P (f a))
      → P w.store
      → P (continue r f w).1.store
  Keeps-continue (ok a) f w k h = (k a refl).at w h
  Keeps-continue (err e) f w k h = h

  pub Keeps-bind :
      (m : M A) (f : A → M B) → Keeps P m → ((a : A) → Keeps P (f a)) → Keeps P (m >>= f)
  unfolding ◌>>=◌
  Keeps-bind m f km kf = record {
    at = λ w h. Keeps-continue (m w).0 f (m w).1 (λ a e. kf a) (km.at w h);
  }

  -- The rest may use what the result of the first part was, in a state with `P`.
  pub Keeps-bind_result :
      (r : Result A) (f : A → M B) → ((a : A) → r ≡ ok a → Keeps P (f a)) → Keeps P (lift r >>= f)
  unfolding ◌>>=◌
  Keeps-bind_result r f k = record { at = λ w h. Keeps-continue r f w k h }

pub ruleset keeps_rules = (
  Keeps-pure, Keeps-fail, Keeps-lift, Keeps-gets, Keeps-ok_or, Keeps-ignore_error, Keeps-map_err,
  Keeps-if, Keeps-now, Keeps-new_short_uuid, Keeps-publish, Keeps-bind,
)
