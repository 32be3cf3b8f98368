-- ===== src/Ibox/Ending.antt =====
-- Handlers that end: they return, fail or panic within the fuel given.
use infinibox_csi_driver.Exec.{
  Err, Answer, ok, err, Outcome, done, fail, panic, unfinished, continue, from_answer, ◌>>=◌,
}
use infinibox_csi_driver.Ibox.Surroundings.{History}
use infinibox_csi_driver.Ibox.Client.{M}

abbrev pub Ends {ℓ} : {A : Type ℓ} → Outcome A → Type 0
Ends (done a) = Unit
Ends (fail e) = Unit
Ends panic = Unit
Ends unfinished = ⊥

module _ {ℓ κ} {A : Type ℓ} {B : Type κ} where
  Ends-continue :
      (r : Outcome A × History) (f : A → M B)
      → Ends r.0
      → ((a : A) (h : History) → Ends (f a h).0)
      → Ends (continue r f).0
  Ends-continue (done a, h) f e n = n a h
  Ends-continue (fail x, h) f e n = tt
  Ends-continue (panic, h) f e n = tt
  Ends-continue (unfinished, h) f e n = absurd e

  pub Ends-bind :
      (m : M A) (f : A → M B) (h : History)
      → Ends (m h).0
      → ((a : A) (h' : History) → Ends (f a h').0)
      → Ends ((m >>= f) h).0
  Ends-bind m f h e n = Ends-continue (m h) f e n

module _ {ℓ} {A : Type ℓ} where
  pub Ends-answer : (wrap : Err → Err) (r : Answer A) (h : History) → Ends (from_answer wrap r h).0
  Ends-answer wrap (ok a) h = tt
  Ends-answer wrap (err e) h = tt
