-- ===== src/Strings/RoundTrip.antt =====
-- Every int64 is read back from its decimal print, and the print holds digits and a sign only.
use infinibox_csi_driver.Prelude.{
  ℕ, zero, suc, ◌+◌, ◌/◌, ◌%◌, ◌≤◌, ◌<◌, ◌≡◌, ◌≢◌, refl, some, [], ◌∷◌, arith, All,
}
use infinibox_csi_driver.Prelude.Int.{ℤ, pos, negsuc, IsInt64}
use infinibox_csi_driver.Strings.{Str}
use infinibox_csi_driver.Strings.Split.{Lacks}
use infinibox_csi_driver.Strings.Decimal.{digits, format, itoa, scan, unsigned, non_negative, atoi}

abbrev IsDigit : ℕ → Type 0
IsDigit c = (b'0' ≤ c) × (c ≤ b'9')

scan_last : (n : ℕ) (acc : Str) → scan ((b'0' + n % 10) ∷ acc) (n / 10) ≡ scan acc n
scan_last n acc = ground arith

scan-digits : (f n : ℕ) (acc : Str) → n < f → scan (digits f n acc) 0 ≡ scan acc n
scan-digits zero n acc h = absurd (omega arith)
scan-digits (suc f) n acc h =
    ground (arith, scan-digits f (n / 10) ((b'0' + n % 10) ∷ acc), scan_last n acc)

digits-All : (f n : ℕ) (acc : Str) → All IsDigit acc → All IsDigit (digits f n acc)
digits-All zero n acc h = h
digits-All (suc f) n acc h = ground (arith, digits-All f (n / 10) ((b'0' + n % 10) ∷ acc))

digits-ne-nil : (f n c : ℕ) (acc : Str) → digits f n (c ∷ acc) ≢ []
digits-ne-nil zero n c acc = λ e. cc
digits-ne-nil (suc f) n c acc = ground (arith, digits-ne-nil f (n / 10) (b'0' + n % 10) (c ∷ acc))

format-ne-nil : (n : ℕ) → format n ≢ []
format-ne-nil n = ground (arith, digits-ne-nil n (n / 10) (b'0' + n % 10) [])

unsigned-scan : (s : Str) → s ≢ [] → unsigned s ≡ scan s 0
unsigned-scan [] h = absurd (h refl)
unsigned-scan (c ∷ s) h = refl

unsigned-format : (n : ℕ) → unsigned (format n) ≡ some n
unsigned-format n =
    ground (arith, unsigned-scan (format n) (format-ne-nil n), scan-digits (suc n) n [])

atoi_digits : (s : Str) → s ≢ [] → All IsDigit s → atoi s ≡ non_negative (unsigned s)
unfolding atoi
atoi_digits [] h d = absurd (h refl)
atoi_digits (c ∷ s) h d = ground arith

-- Every int64 is read back from its decimal print.
pub atoi-itoa : (i : ℤ) → IsInt64 i → atoi (itoa i) ≡ some i
unfolding itoa
atoi-itoa (pos n) h = ground (
  arith,
  atoi_digits (format n) (format-ne-nil n) (digits-All (suc n) n [] tt),
  unsigned-format n,
)
atoi-itoa (negsuc n) h = unfold atoi in rw (unsigned-format (suc n)) (ground arith)

digits-Lacks : (d : ℕ) → d < b'-' → (s : Str) → All IsDigit s → Lacks d s
digits-Lacks d h [] a = tt
digits-Lacks d h (c ∷ s) a = (λ e. absurd (omega arith), digits-Lacks d h s a.1)

pub Lacks-itoa : (d : ℕ) (i : ℤ) → d < b'-' → Lacks d (itoa i)
unfolding itoa
Lacks-itoa d (pos n) h = digits-Lacks d h (format n) (digits-All (suc n) n [] tt)
Lacks-itoa d (negsuc n) h = (
  λ e. absurd (omega arith),
  digits-Lacks d h (format (suc n)) (digits-All (suc (suc n)) (suc n) [] tt),
)

pub itoa-ne-nil : (i : ℤ) → itoa i ≢ []
unfolding itoa
itoa-ne-nil (pos n) = format-ne-nil n
itoa-ne-nil (negsuc n) = λ e. cc
