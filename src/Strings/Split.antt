-- ===== src/Strings/Split.antt =====
-- How `split` cuts a text at separators.
use infinibox_csi_driver.Prelude.{
  ℕ, ◌≡◌, ◌≢◌, refl, true, [], ◌∷◌, ◌++◌, append_assoc, append-nil, arith, All, length,
}
use infinibox_csi_driver.Strings.{Str, is_prefix, split_from, split}

-- No byte of the text is `d`.
abbrev pub Lacks : ℕ → Str → Type 0
Lacks d = All (λ c. c ≢ d)

module _ (d : ℕ) (ds : Str) where
  pub split_from-append :
      (s rest cur : Str)
      → Lacks d s
      → split_from d ds 0 (s ++ rest) cur ≡ split_from d ds 0 rest (cur ++ s)
  unfolding split_from is_prefix
  split_from-append [] rest cur h = rw append-nil
  split_from-append (c ∷ s) rest cur h =
      ground (arith, split_from-append s rest (cur ++ c ∷ []), append_assoc cur (c ∷ []) s)

  -- A text without the separator's first byte is one part.
  pub split-Lacks : (s : Str) → Lacks d s → split d ds s ≡ s ∷ []
  unfolding split split_from
  split-Lacks s h = rw (← append-nil s) (rw (split_from-append s [] [] h) (rw append-nil))

  pub split_from-skip :
      (p s : Str) → split_from d ds (length p) (p ++ s) [] ≡ split_from d ds 0 s []
  unfolding split_from
  split_from-skip [] s = refl
  split_from-skip (c ∷ p) s = split_from-skip p s

  is_prefix_self : (p s : Str) → is_prefix p (p ++ s) ≡ true
  unfolding is_prefix
  is_prefix_self [] s = refl
  is_prefix_self (c ∷ p) s = ground (arith, is_prefix_self p s)

  split_at_sep :
      (s cur : Str) → split_from d ds 0 (d ∷ (ds ++ s)) cur ≡ cur ∷ split_from d ds 0 s []
  unfolding split_from
  split_at_sep s cur = rw (is_prefix_self (d ∷ ds) s, split_from) (rw (split_from-skip ds s))

  -- The part before the first separator is cut off, and the rest is split.
  pub split-sep : (a b : Str) → Lacks d a → split d ds (a ++ d ∷ (ds ++ b)) ≡ a ∷ split d ds b
  unfolding split
  split-sep a b h = rw (split_from-append a (d ∷ (ds ++ b)) [] h) (split_at_sep b a)
