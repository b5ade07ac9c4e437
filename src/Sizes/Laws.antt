-- ===== src/Sizes/Laws.antt =====
-- What the size arithmetic returns, and exactly when it throws.
use native.Mathlib.Nat.{
  pow-succ', one-le-pow, mul-mod_left, pow-le-pow_right, mod-lt, div-add-mod', le-div_iff_mul-le,
}
use advcpp.Prelude.{
  ℕ, zero, suc, ◌+◌, ◌-◌, ◌*◌, ◌/◌, ◌%◌, ◌^◌, ◌≤◌, ◌<◌, bit_and, ◌≡◌, sym, ap, ◌∙◌, ◌↔◌, inl, inr,
  true, arith, ltb, leb, if◌then◌else◌, Bool-cases, ltb→lt, ltb-false→le, size_max, ok, err,
}
use advcpp.Bits.{bit_and-high}
use advcpp.Prelude.{size_overflow}
use advcpp.Sizes.{
  is_power_of_two, align_up, round_up_to_page, system_page_size, checked_add, checked_mul,
}
use advcpp.Sizes.Power.{PowerOfTwo, is_power_of_two_iff, is_power_of_two-pow}

pub two-pow-add : (k d : ℕ) → 2 ^ (k + d) ≡ 2 ^ k * 2 ^ d
two-pow-add zero d = ground arith
two-pow-add (suc k) d =
    let e : suc k + d ≡ suc (k + d) = omega arith in
    rw (e, pow-succ' 2 (k + d), pow-succ' 2 k) (omega (arith, two-pow-add k d))

-- The exponents whose power fits `std::size_t`.
pub exponent-lt : (k : ℕ) → 2 ^ k ≤ size_max → k < 64
exponent-lt k h = elim (Bool-cases (ltb k 64)) [
  | inl small ↦ ltb→lt _ _ small
  | inr large ↦ absurd (
      omega
        (arith, pow-le-pow_right {n = 2} (omega arith) {i = 64} {j = k} (ltb-false→le _ _ large)))
]

-- The powers of two that fit leave half of the range.
pub PowerOfTwo-le : (a : ℕ) → PowerOfTwo a → a ≤ size_max → a ≤ 2 ^ 63
PowerOfTwo-le a (k, e) h =
    let small : k < 64 = exponent-lt k (omega arith) in
    rw e (pow-le-pow_right {n = 2} (omega arith) {i = k} {j = 63} (omega arith))

-- The smallest multiple of `a` that is at least `v`, without wrap-around.
pub record IsAligned (v a r : ℕ) : Type 0 where
  pub multiple : r % a ≡ 0
  pub above : v ≤ r
  pub below : r < v + a
  pub fits : r ≤ size_max

two-pow-compl : (k : ℕ) → k < 64 → 2 ^ k * 2 ^ (64 - k) ≡ 2 ^ 64
two-pow-compl k hk =
    let e : k + (64 - k) ≡ 64 = omega arith in
    sym (two-pow-add k (64 - k)) ∙ ap (λ (n : ℕ). 2 ^ n) e

mask : (k : ℕ) → k < 64 → size_max - (2 ^ k - 1) ≡ 2 ^ k * 2 ^ (64 - k) - 2 ^ k
mask k hk = omega (arith, two-pow-compl k hk, one-le-pow k 2 (omega arith))

pub high_mask :
    (k x : ℕ) → k < 64 → x ≤ size_max → bit_and x (size_max - (2 ^ k - 1)) ≡ x / 2 ^ k * 2 ^ k
high_mask k x hk hx =
    let split : 2 ^ k * 2 ^ (64 - k) ≡ 18446744073709551616 = two-pow-compl k hk in
    rw (mask k hk) (bit_and-high k (64 - k) x (omega arith))

align_up-pow :
    (k v : ℕ)
    → k < 64
    → v + (2 ^ k - 1) ≤ size_max
    → align_up v (2 ^ k) ≡ ok ((v + (2 ^ k - 1)) / 2 ^ k * 2 ^ k)
unfolding align_up
align_up-pow k v hk hv =
    ground (arith, is_power_of_two-pow k, one-le-pow k 2, high_mask k (v + (2 ^ k - 1)) hk hv)

pub rounded-IsAligned :
    (v a : ℕ) → 0 < a → v + (a - 1) ≤ size_max → IsAligned v a ((v + (a - 1)) / a * a)
rounded-IsAligned v a ha hv = record {
  multiple = mul-mod_left ((v + (a - 1)) / a) a;
  above = omega (arith, div-add-mod' (v + (a - 1)) a, mod-lt (v + (a - 1)) ha);
  below = omega (arith, div-add-mod' (v + (a - 1)) a);
  fits = omega (arith, div-add-mod' (v + (a - 1)) a);
}

align_up-power : (v a r : ℕ) → align_up v a ≡ ok r → is_power_of_two a ≡ true
unfolding align_up
align_up-power v a r h = ground arith

align_up-guard : (v a r : ℕ) → align_up v a ≡ ok r → v ≤ size_max - (a - 1)
unfolding align_up
align_up-guard v a r h = ground arith

pub align_up-ok :
    (v a : ℕ) {r : ℕ} → a ≤ size_max → align_up v a ≡ ok r → PowerOfTwo a × IsAligned v a r
align_up-ok v a {r} fits h =
    let (k, e) = (is_power_of_two_iff a).0 (align_up-power v a r h) in
    let pos : 0 < a = omega (arith, one-le-pow k 2 (omega arith)) in
    let room : v + (a - 1) ≤ size_max = omega (arith, align_up-guard v a r h) in
    let run : align_up v (2 ^ k) ≡ ok ((v + (2 ^ k - 1)) / 2 ^ k * 2 ^ k) =
      align_up-pow k v (exponent-lt k (omega arith)) (omega arith) in
    let same : ok r ≡ ok ((v + (a - 1)) / a * a) = sym h ∙ rw e run in
    let value : (v + (a - 1)) / a * a ≡ r = cc in
    ((k, e), rw value at (rounded-IsAligned v a pos room))

-- Two multiples of `a` at most `v + (a - 1)` and at least `v` are one.
multiple_unique : (v a p q : ℕ) → v ≤ p * a → p * a < v + a → v ≤ q * a → q * a < v + a → p ≡ q
multiple_unique v a p q h1 h2 h3 h4 = grind arith

mul_mono : (a p d : ℕ) → p ≤ d → p * a ≤ d * a
mul_mono a p d h = grind arith

last_multiple : (a p d : ℕ) → p * a < d * a → p * a + a ≤ d * a
last_multiple a p d h = elim (Bool-cases (ltb p d)) [
  | inl below ↦ omega (arith, mul_mono a (p + 1) d (omega (arith, ltb→lt p d below)))
  | inr above ↦ absurd (omega (arith, mul_mono a d p (ltb-false→le _ _ above)))
]

multiple_form : (r a : ℕ) → r % a ≡ 0 → r / a * a ≡ r
multiple_form r a h = omega (arith, div-add-mod' r a)

pub IsAligned-room : (k v r : ℕ) → k < 64 → IsAligned v (2 ^ k) r → v + (2 ^ k - 1) ≤ size_max
IsAligned-room k v r hk w = omega (
  arith,
  multiple_form r (2 ^ k) w.multiple,
  two-pow-compl k hk,
  last_multiple (2 ^ k) (r / 2 ^ k) (2 ^ (64 - k)),
  one-le-pow k 2 (omega arith),
  w.above,
  w.fits,
)

pub align_up-IsAligned : (k v r : ℕ) → k < 64 → IsAligned v (2 ^ k) r → align_up v (2 ^ k) ≡ ok r
align_up-IsAligned k v r hk w =
    let room : v + (2 ^ k - 1) ≤ size_max = IsAligned-room k v r hk w in
    let s = rounded-IsAligned v (2 ^ k) (one-le-pow k 2 (omega arith)) room in
    let form : r / 2 ^ k * 2 ^ k ≡ r = multiple_form r (2 ^ k) w.multiple in
    let same : (v + (2 ^ k - 1)) / 2 ^ k ≡ r / 2 ^ k =
      multiple_unique v (2 ^ k) _ _ s.above s.below (rw form w.above) (rw form w.below) in
    align_up-pow k v hk room ∙ ap ok (rw same form)

-- `align_up` returns exactly the smallest multiple that is at least the value, for powers of two,
-- and throws exactly where there is none in range.
align_up_iff : (v a r : ℕ) → a ≤ size_max → (align_up v a ≡ ok r) ↔ (PowerOfTwo a × IsAligned v a r)
align_up_iff v a r fits = (align_up-ok v a fits, λ (p, w). back p w)
  where
    back : PowerOfTwo a → IsAligned v a r → align_up v a ≡ ok r
    back (k, e) w = rw e (align_up-IsAligned k v r (exponent-lt k (omega arith)) (rw e at w))

-- `checked_add` returns the exact sum where it fits `std::size_t`, and nothing else.
pub checked_add_iff :
    (a b r : ℕ) → b ≤ size_max → (checked_add a b ≡ ok r) ↔ ((r ≡ a + b) × (a + b ≤ size_max))
unfolding checked_add
checked_add_iff a b r hb = (λ h. ground arith, λ (e, h). ground arith)

-- `checked_mul` returns the exact product where it fits `std::size_t`, and nothing else.
pub checked_mul_iff : (a b r : ℕ) → (checked_mul a b ≡ ok r) ↔ ((r ≡ a * b) × (a * b ≤ size_max))
unfolding checked_mul
checked_mul_iff zero b r = (λ h. ground arith, λ (e, h). ground arith)
checked_mul_iff (suc a) b r =
    let test : (b ≤ size_max / suc a) ↔ (b * suc a ≤ size_max) = le-div_iff_mul-le (omega arith) in
    (λ h. ground (arith, test), λ (e, h). ground (arith, test))

-- The same as equations, for code that chains these operations.
pub checked_add-eq :
    (a b : ℕ)
    → b ≤ size_max
    → checked_add a b ≡ (if leb (a + b) size_max then ok (a + b) else err size_overflow)
unfolding checked_add
checked_add-eq a b hb = ground arith

pub checked_mul-eq :
    (a b : ℕ) → checked_mul a b ≡ (if leb (a * b) size_max then ok (a * b) else err size_overflow)
unfolding checked_mul
checked_mul-eq zero b = ground arith
checked_mul-eq (suc a) b =
    let test : (b ≤ size_max / suc a) ↔ (b * suc a ≤ size_max) = le-div_iff_mul-le (omega arith) in
    ground (arith, test)

-- A page size that `sysconf` reports.
pub round_up_to_page-ok :
    (page v : ℕ) {r : ℕ}
    → page ≤ size_max
    → round_up_to_page page v ≡ ok r
    → PowerOfTwo page × IsAligned v page r
unfolding round_up_to_page system_page_size
round_up_to_page-ok page v fits h = align_up-ok v page fits (ground arith)
