-- ===== src/Ibox/Safety.antt =====
-- Properties of histories: what holds whenever a call is made, for any appliance.
use infinibox_csi_driver.Prelude.{◌≡◌, refl, Option, none, some, List, [], ◌∷◌}
use infinibox_csi_driver.Exec.{
  Err, Answer, ok, err, Outcome, done, fail, panic, unfinished, continue, from_answer, or_fail,
  rewrapped, wrapping, caught, attempt, ◌>>=◌,
}
use infinibox_csi_driver.Ibox.Calls.{Call}
use infinibox_csi_driver.Ibox.Surroundings.{History}
use infinibox_csi_driver.Ibox.Client.{M, from_listing}

-- Some call in the history was made when `P` held of the calls before it.
pub data Once (P : History → Call → Type 0) : History → Type 0 where
  now : {c : Call} {h : History} → P h c → Once P (c ∷ h)
  before : {c : Call} {h : History} → Once P h → Once P (c ∷ h)

-- Every call in the history was made when `P` held of the calls before it.
abbrev pub Always : (History → Call → Type 0) → History → Type 0
Always P [] = Unit
Always P (c ∷ h) = P h c × Always P h

-- What a handler's history keeps: composed handlers keep what their parts keep.
module _ {ℓ} (P : History → Call → Type 0) {A : Type ℓ} where
  keeps-continue {κ} :
      {B : Type κ} (r : Outcome A × History) (f : A → M B)
      → Always P r.1
      → ((a : A) (h : History) → Always P h → Always P (f a h).1)
      → Always P (continue r f).1
  keeps-continue (done a, h) f k kf = kf a h k
  keeps-continue (fail e, h) f k kf = k
  keeps-continue (panic, h) f k kf = k
  keeps-continue (unfinished, h) f k kf = k

  pub keeps-bind {κ} :
      {B : Type κ} (m : M A) (f : A → M B) (h : History)
      → Always P (m h).1
      → ((a : A) (h' : History) → Always P h' → Always P (f a h').1)
      → Always P ((m >>= f) h).1
  keeps-bind m f h k kf = keeps-continue (m h) f k kf

  keeps-rewrapped :
      (wrap : Err → Err) (r : Outcome A × History) → Always P r.1 → Always P (rewrapped wrap r).1
  keeps-rewrapped wrap (done a, h) k = k
  keeps-rewrapped wrap (fail e, h) k = k
  keeps-rewrapped wrap (panic, h) k = k
  keeps-rewrapped wrap (unfinished, h) k = k

  pub keeps-wrapping :
      (m : M A) (wrap : Err → Err) (h : History) → Always P (m h).1 → Always P (wrapping m wrap h).1
  keeps-wrapping m wrap h k = keeps-rewrapped wrap (m h) k

module _ {ℓ} (P : History → Call → Type 0) {A : Type ℓ} where
  keeps-from_answer :
      (wrap : Err → Err) (r : Answer A) (h : History)
      → Always P h
      → Always P (from_answer wrap r h).1
  keeps-from_answer wrap (ok a) h k = k
  keeps-from_answer wrap (err e) h k = k

  pub keeps-or_fail :
      (m : M (Answer A)) (wrap : Err → Err) (h : History)
      → Always P (m h).1
      → Always P (or_fail m wrap h).1
  keeps-or_fail m wrap h k = keeps-bind P m (from_answer wrap) h k (keeps-from_answer wrap)

-- Handlers that look at an answer before they go on.
module _ {ℓ κ} (P : History → Call → Type 0) {A : Type ℓ} {B : Type κ} where
  pub keeps-answer :
      (wrap : Err → Err) (r : Answer A) (f : A → M B) (h : History)
      → Always P h
      → ((a : A) → r ≡ ok a → Always P (f a h).1)
      → Always P ((from_answer wrap r >>= f) h).1
  keeps-answer wrap (ok a) f h k kf = kf a refl
  keeps-answer wrap (err e) f h k kf = k

  pub keeps-listing :
      (wrap : Err → Err) (items : List A) (e : Option Err) (f : List A → M B) (h : History)
      → Always P h
      → (e ≡ none → Always P (f items h).1)
      → Always P ((from_listing wrap items e >>= f) h).1
  keeps-listing wrap items none f h k kf = kf refl
  keeps-listing wrap items (some e) f h k kf = k

-- A first part keeps `Q`, from which the rest, or an early end, has `R`.
module _ {ℓ κ} (Q R : History → Type 0) {A : Type ℓ} {B : Type κ} where
  through-continue :
      (r : Outcome A × History) (f : A → M B)
      → Q r.1
      → ((h : History) → Q h → R h)
      → ((a : A) (h : History) → Q h → R (f a h).1)
      → R (continue r f).1
  through-continue (done a, h) f q e n = n a h q
  through-continue (fail x, h) f q e n = e h q
  through-continue (panic, h) f q e n = e h q
  through-continue (unfinished, h) f q e n = e h q

  pub through-bind :
      (m : M A) (f : A → M B) (h : History)
      → Q (m h).1
      → ((h' : History) → Q h' → R h')
      → ((a : A) (h' : History) → Q h' → R (f a h').1)
      → R ((m >>= f) h).1
  through-bind m f h q e n = through-continue (m h) f q e n

-- What the first part returned is known to the rest.
module _ {ℓ κ} (P : History → Call → Type 0) {A : Type ℓ} {B : Type κ} where
  keeps-returned :
      (r : Outcome A × History) (f : A → M B)
      → Always P r.1
      → ((a : A) → r.0 ≡ done a → Always P (f a r.1).1)
      → Always P (continue r f).1
  keeps-returned (done a, h) f k kf = kf a refl
  keeps-returned (fail x, h) f k kf = k
  keeps-returned (panic, h) f k kf = k
  keeps-returned (unfinished, h) f k kf = k

  pub keeps-result :
      (m : M A) (f : A → M B) (h : History)
      → Always P (m h).1
      → ((a : A) → (m h).0 ≡ done a → Always P (f a (m h).1).1)
      → Always P ((m >>= f) h).1
  keeps-result m f h k kf = keeps-returned (m h) f k kf

module _ {ℓ} (P : History → Call → Type 0) {A : Type ℓ} where
  keeps-caught : (r : Outcome A × History) → Always P r.1 → Always P (caught r).1
  keeps-caught (done a, h) k = k
  keeps-caught (fail x, h) k = k
  keeps-caught (panic, h) k = k
  keeps-caught (unfinished, h) k = k

  pub keeps-attempt : (m : M A) (h : History) → Always P (m h).1 → Always P (attempt m h).1
  keeps-attempt m h k = keeps-caught (m h) k

module _ {ℓ} (Q : History → Type 0) {A : Type ℓ} where
  through-rewrapped : (wrap : Err → Err) (r : Outcome A × History) → Q r.1 → Q (rewrapped wrap r).1
  through-rewrapped wrap (done a, h) q = q
  through-rewrapped wrap (fail e, h) q = q
  through-rewrapped wrap (panic, h) q = q
  through-rewrapped wrap (unfinished, h) q = q

  pub through-wrapping :
      (m : M A) (wrap : Err → Err) (h : History) → Q (m h).1 → Q (wrapping m wrap h).1
  through-wrapping m wrap h q = through-rewrapped wrap (m h) q

-- What holds of histories throughout `Q`, and of the history at the end, `R`.
module _ {ℓ κ} (Q R : History → Type 0) {A : Type ℓ} {B : Type κ} where
  pub through-answer :
      (wrap : Err → Err) (r : Answer A) (f : A → M B) (h : History)
      → Q h
      → ((h' : History) → Q h' → R h')
      → ((a : A) → r ≡ ok a → R (f a h).1)
      → R ((from_answer wrap r >>= f) h).1
  through-answer wrap (ok a) f h q e n = n a refl
  through-answer wrap (err x) f h q e n = e h q
