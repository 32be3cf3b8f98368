-- ===== src/Strings/Join.antt =====
-- Joining the parts of a split gives the text back.
use infinibox_csi_driver.Prelude.{
  ℕ, zero, suc, ◌≡◌, ◌≢◌, refl, true, Bool-cases, inl, inr, [], ◌∷◌, ◌++◌, append_assoc, append-nil,
  arith, length, List,
}
use infinibox_csi_driver.Strings.{Str, is_prefix, split_from, split}

module _ (d : ℕ) (ds : Str) where
  -- strings.Join with the separator `d ∷ ds`
  abbrev pub join : List Str → Str
  join [] = []
  join (a ∷ []) = a
  join (a ∷ b ∷ r) = a ++ d ∷ (ds ++ join (b ∷ r))

  split_from-ne-nil : (skip : ℕ) (s cur : Str) → split_from d ds skip s cur ≢ []
  unfolding split_from
  split_from-ne-nil skip [] cur = ground arith
  split_from-ne-nil (suc k) (c ∷ s) cur = split_from-ne-nil k s cur
  split_from-ne-nil zero (c ∷ s) cur = ground (arith, split_from-ne-nil zero s (cur ++ c ∷ []))

  join-cons : (a : Str) (r : List Str) → r ≢ [] → join (a ∷ r) ≡ a ++ d ∷ (ds ++ join r)
  join-cons a [] h = absurd (h refl)
  join-cons a (b ∷ r) h = refl

  -- Behind a prefix that is passed over, the parts spell the rest of the text.
  join-split_from :
      (s p cur : Str)
      → is_prefix p s ≡ true
      → (rest : Str) × (s ≡ p ++ rest) × (join (split_from d ds (length p) s cur) ≡ cur ++ rest)
  unfolding split_from is_prefix
  join-split_from [] [] cur h = ([], refl, ground (arith, append-nil cur))
  join-split_from [] (c ∷ p) cur h = absurd (ground arith)
  join-split_from (c ∷ s) (b ∷ p) cur h =
      let (rest, e, j) = join-split_from s p cur (ground arith) in (rest, ground arith, j)
  join-split_from (c ∷ s) [] cur h = elim (Bool-cases (is_prefix (d ∷ ds) (c ∷ s))) [
    | inl sep ↦
        let (rest, e, j) = join-split_from s ds [] (ground arith) in
        (
          c ∷ s,
          refl,
          rw (sep, split_from)
              (rw (join-cons cur _ (split_from-ne-nil (length ds) s [])) (ground arith)),
        )
    | inr other ↦
        let (rest, e, j) = join-split_from s [] (cur ++ c ∷ []) refl in
        (c ∷ s, refl, rw (other, split_from) (ground (arith, append_assoc cur (c ∷ []) s)))
  ]

  pub join-split : (s : Str) → join (split d ds s) ≡ s
  unfolding split is_prefix
  join-split s = let (rest, e, j) = join-split_from s [] [] refl in ground arith
