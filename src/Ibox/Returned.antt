-- ===== src/Ibox/Returned.antt =====
-- Properties of what a handler returns, when it returns a value.
use infinibox_csi_driver.Prelude.{◌≡◌, refl, Option, none, some, List}
use infinibox_csi_driver.Exec.{
  Err, Answer, ok, err, Outcome, done, fail, panic, unfinished, continue, rewrapped, wrapping,
  from_answer, ◌>>=◌,
}
use infinibox_csi_driver.Ibox.Surroundings.{History}
use infinibox_csi_driver.Ibox.Client.{M, from_listing}

-- The value that is returned, if one is, satisfies `Q`.
abbrev pub Returned {ℓ} : {A : Type ℓ} → (A → Type 0) → Outcome A → Type 0
Returned Q (done a) = Q a
Returned Q (fail e) = Unit
Returned Q panic = Unit
Returned Q unfinished = Unit

module _ {ℓ κ} {A : Type ℓ} {B : Type κ} (Q : B → Type 0) where
  Returned-continue :
      (r : Outcome A × History) (f : A → M B)
      → ((a : A) (h : History) → Returned Q (f a h).0)
      → Returned Q (continue r f).0
  Returned-continue (done a, h) f q = q a h
  Returned-continue (fail e, h) f q = tt
  Returned-continue (panic, h) f q = tt
  Returned-continue (unfinished, h) f q = tt

  pub Returned-bind :
      (m : M A) (f : A → M B) (h : History)
      → ((a : A) (h' : History) → Returned Q (f a h').0)
      → Returned Q ((m >>= f) h).0
  Returned-bind m f h q = Returned-continue (m h) f q

  pub Returned-answer :
      (wrap : Err → Err) (r : Answer A) (f : A → M B) (h : History)
      → ((a : A) → r ≡ ok a → Returned Q (f a h).0)
      → Returned Q ((from_answer wrap r >>= f) h).0
  Returned-answer wrap (ok a) f h q = q a refl
  Returned-answer wrap (err e) f h q = tt

  pub Returned-listing :
      (wrap : Err → Err) (items : List A) (e : Option Err) (f : List A → M B) (h : History)
      → (e ≡ none → Returned Q (f items h).0)
      → Returned Q ((from_listing wrap items e >>= f) h).0
  Returned-listing wrap items none f h q = q refl
  Returned-listing wrap items (some e) f h q = tt

-- What the first part returns is known to the rest.
module _ {ℓ κ} {A : Type ℓ} {B : Type κ} (P : A → Type 0) (Q : B → Type 0) where
  pub Returned-through :
      (r : Outcome A × History) (f : A → M B)
      → Returned P r.0
      → ((a : A) (h : History) → P a → Returned Q (f a h).0)
      → Returned Q (continue r f).0
  Returned-through (done a, h) f p q = q a h p
  Returned-through (fail e, h) f p q = tt
  Returned-through (panic, h) f p q = tt
  Returned-through (unfinished, h) f p q = tt

module _ {ℓ} {A : Type ℓ} (Q : A → Type 0) where
  Returned-rewrapped :
      (wrap : Err → Err) (r : Outcome A × History)
      → Returned Q r.0
      → Returned Q (rewrapped wrap r).0
  Returned-rewrapped wrap (done a, h) q = q
  Returned-rewrapped wrap (fail e, h) q = tt
  Returned-rewrapped wrap (panic, h) q = tt
  Returned-rewrapped wrap (unfinished, h) q = tt

  pub Returned-wrapping :
      (m : M A) (wrap : Err → Err) (h : History)
      → Returned Q (m h).0
      → Returned Q (wrapping m wrap h).0
  Returned-wrapping m wrap h q = Returned-rewrapped wrap (m h) q

module _ {ℓ} {A : Type ℓ} (P Q : A → Type 0) where
  pub Returned-weaken : (o : Outcome A) → ((a : A) → P a → Q a) → Returned P o → Returned Q o
  Returned-weaken (done a) f r = f a r
  Returned-weaken (fail e) f r = tt
  Returned-weaken panic f r = tt
  Returned-weaken unfinished f r = tt

-- What the first part returned, and what its history keeps, are known to the rest.
pub through-returned :
    {A B : Type 0} (P : A → Type 0) (Q R : History → Type 0) (r : Outcome A × History) (f : A → M B)
    → Q r.1 × Returned P r.0
    → ((h : History) → Q h → R h)
    → ((a : A) (h : History) → Q h → P a → R (f a h).1)
    → R (continue r f).1
through-returned P Q R (done a, h) f (q, p) over next = next a h q p
through-returned P Q R (fail e, h) f (q, p) over next = over h q
through-returned P Q R (panic, h) f (q, p) over next = over h q
through-returned P Q R (unfinished, h) f (q, p) over next = over h q
