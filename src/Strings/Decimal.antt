-- ===== src/Strings/Decimal.antt =====
-- strconv.Itoa and strconv.Atoi.
use infinibox_csi_driver.Prelude.{
  ℕ, zero, suc, ◌+◌, ◌-◌, ◌*◌, ◌/◌, ◌%◌, ◌^◌, ◌≡◌, refl, Option, none, some, [], ◌∷◌, ◌&&◌, ltb,
  leb, ◌==◌, if◌then◌else◌,
}
use infinibox_csi_driver.Prelude.Int.{ℤ, pos, negsuc}
use infinibox_csi_driver.Strings.{Str, lit}

-- The digits of `n` in front of `acc`; the fuel `suc n` is enough.
abbrev pub digits : ℕ → ℕ → Str → Str
digits zero n acc = acc
digits (suc f) n acc =
    let here = (b'0' + n % 10) ∷ acc in
    let rest = digits f (n / 10) here in if ltb n 10 then here else rest

abbrev pub format : ℕ → Str
format n = digits (suc n) n []

-- strconv.Itoa
unfoldable pub itoa : ℤ → Str
itoa (pos n) = format n
itoa (negsuc n) = b'-' ∷ format (suc n)

-- The value of a run of digits, with no bound.
abbrev pub scan : Str → ℕ → Option ℕ
scan [] n = some n
scan (c ∷ s) n =
    let rest = scan s (n * 10 + (c - b'0')) in if leb b'0' c && leb c b'9' then rest else none

abbrev pub unsigned : Str → Option ℕ
unsigned [] = none
unsigned (c ∷ s) = scan (c ∷ s) 0

abbrev pub non_negative : Option ℕ → Option ℤ
non_negative none = none
non_negative (some n) = if ltb n (2 ^ 63) then some (pos n) else none

-- Zero with a sign is zero.
abbrev pub negative : Option ℕ → Option ℤ
negative none = none
negative (some zero) = some (pos 0)
negative (some (suc n)) = if ltb n (2 ^ 63) then some (negsuc n) else none

-- strconv.Atoi: an optional sign, decimal digits, and a value that an int64 holds.
unfoldable pub atoi : Str → Option ℤ
atoi [] = none
atoi (c ∷ s) =
    if c == b'-'
    then negative (unsigned s)
    else if c == b'+'
    then non_negative (unsigned s)
    else non_negative (unsigned (c ∷ s))

-- The value that ParseUint has for a run of digits: at 2^64 it stops with the largest value, and the
-- rest of the text is not looked at.
abbrev pub scan_clamped : Str → ℕ → Option ℕ
scan_clamped [] n = some n
scan_clamped (c ∷ s) n =
    let value = n * 10 + (c - b'0') in
    let rest = scan_clamped s value in
    if leb b'0' c && leb c b'9'
    then (if leb (2 ^ 64) value then some (2 ^ 64 - 1) else rest)
    else none

abbrev pub unsigned_clamped : Str → Option ℕ
unsigned_clamped [] = none
unsigned_clamped (c ∷ s) = scan_clamped (c ∷ s) 0

abbrev pub clamped : Option ℕ → ℤ
clamped none = pos 0
clamped (some n) = if ltb n (2 ^ 63) then pos n else pos (2 ^ 63 - 1)

abbrev pub negative_clamped : Option ℕ → ℤ
negative_clamped none = pos 0
negative_clamped (some zero) = pos 0
negative_clamped (some (suc n)) = if ltb n (2 ^ 63) then negsuc n else negsuc (2 ^ 63 - 1)

-- The value of strconv.Atoi where the error is dropped: 0 for a text that is no number, and the
-- nearest int64 for a number that is out of range.
unfoldable pub atoi_clamped : Str → ℤ
atoi_clamped [] = pos 0
atoi_clamped (c ∷ s) =
    if c == b'-'
    then negative_clamped (unsigned_clamped s)
    else if c == b'+'
    then clamped (unsigned_clamped s)
    else clamped (unsigned_clamped (c ∷ s))

atoi_clamped_tests :
    (atoi_clamped (lit "042") ≡ pos 42)
    × (atoi_clamped (lit "-7") ≡ negsuc 6)
    × (atoi_clamped (lit "7x") ≡ pos 0)
    × (atoi_clamped (lit "") ≡ pos 0)
    × (atoi_clamped (lit "9223372036854775808") ≡ pos 9223372036854775807)
    × (atoi_clamped (lit "9223372036854775808x") ≡ pos 0)
    × (atoi_clamped (lit "99999999999999999999x") ≡ pos 9223372036854775807)
    × (atoi_clamped (lit "-9223372036854775809") ≡ negsuc 9223372036854775807)
unfolding atoi_clamped
atoi_clamped_tests = (refl, refl, refl, refl, refl, refl, refl, refl)

atoi_tests :
    (atoi (lit "042") ≡ some (pos 42))
    × (atoi (lit "-7") ≡ some (negsuc 6))
    × (atoi (lit "+0") ≡ some (pos 0))
    × (atoi (lit "") ≡ none)
    × (atoi (lit "1_0") ≡ none)
    × (atoi (lit "9223372036854775808") ≡ none)
    × (atoi (lit "-9223372036854775808") ≡ some (negsuc 9223372036854775807))
    × (itoa (negsuc 41) ≡ lit "-42")
    × (itoa (pos 2942184) ≡ lit "2942184")
unfolding atoi itoa
atoi_tests = (refl, refl, refl, refl, refl, refl, refl, refl, refl)
