-- ===== src/Echo/Slots.antt =====
-- The transmit buffers of the echo loop: how many are in flight, and which one is taken.
use advcpp.Prelude.{
  ℕ, zero, suc, ◌+◌, ◌≤◌, ◌<◌, ◌≡◌, refl, Bool, true, false, Option, none, some, List, [], ◌∷◌,
  length, set, get_or, replicate, arith, if◌then◌else◌, Bool-cases, inl, inr, subst,
}
use advcpp.Echo.{TxSlot, find_free_from, find_free_tx_slot}

-- How many slots are in flight.
pub busy : List TxSlot → ℕ
busy [] = 0
busy (slot ∷ slots) = if slot.in_flight then busy slots + 1 else busy slots

abbrev pub taken : TxSlot
taken = record { in_flight = true }

abbrev pub free : TxSlot
free = record { in_flight = false }

-- The state of slot `i`.
abbrev pub is_in_flight : List TxSlot → ℕ → Bool
is_in_flight slots i = (get_or slots i taken).in_flight

pub busy-le-length : (slots : List TxSlot) → busy slots ≤ length slots
unfolding busy
busy-le-length [] = omega arith
busy-le-length (slot ∷ slots) = ground (arith, busy-le-length slots)

pub busy-replicate : (n : ℕ) → busy (replicate n free) ≡ 0
unfolding busy
busy-replicate zero = refl
busy-replicate (suc n) = busy-replicate n

-- A free slot that is taken is one more in flight.
pub busy-set-taken :
    (slots : List TxSlot) (i : ℕ)
    → is_in_flight slots i ≡ false
    → busy (set slots i taken) ≡ busy slots + 1
unfolding busy
busy-set-taken [] i h = cc
busy-set-taken (slot ∷ slots) zero h = ground arith
busy-set-taken (slot ∷ slots) (suc i) h = ground (arith, busy-set-taken slots i h)

-- A slot that is freed is at most one less, whatever it was before.
pub busy-set-free : (slots : List TxSlot) (i : ℕ) → busy slots ≤ busy (set slots i free) + 1
unfolding busy
busy-set-free [] i = omega arith
busy-set-free (slot ∷ slots) zero = ground arith
busy-set-free (slot ∷ slots) (suc i) = ground (arith, busy-set-free slots i)

-- Slot `r` is the first one that is free.
pub record IsFirstFree (slots : List TxSlot) (r : ℕ) : Type 0 where
  pub within : r < length slots
  pub is_free : is_in_flight slots r ≡ false
  pub first : (j : ℕ) → j < r → is_in_flight slots j ≡ true

IsFirstFree-later :
    {slot : TxSlot} {slots : List TxSlot} {r : ℕ}
    → slot.in_flight ≡ true
    → IsFirstFree slots r
    → IsFirstFree (slot ∷ slots) (suc r)
IsFirstFree-later {slot} {slots} {r} e v = record {
  within = omega (arith, v.within);
  is_free = v.is_free;
  first = first;
}
  where
    first : (j : ℕ) → j < suc r → is_in_flight (slot ∷ slots) j ≡ true
    first zero h = e
    first (suc j) h = v.first j (omega arith)

find_free_from-IsFirstFree :
    (i k : ℕ) (slots : List TxSlot)
    → find_free_from i slots ≡ some k
    → (r : ℕ) × (k ≡ i + r) × IsFirstFree slots r
unfolding find_free_from
find_free_from-IsFirstFree i k [] h = cc
find_free_from-IsFirstFree i k (slot ∷ slots) h = elim (Bool-cases slot.in_flight) [
  | inl e ↦
      let (r, at, v) = find_free_from-IsFirstFree (i + 1) k slots (rw e at h) in
      (suc r, omega (arith, at), IsFirstFree-later e v)
  | inr e ↦ (
    0,
    ground arith,
    record { within = omega arith; is_free = e; first = λ j h. absurd (omega arith) },
  )
]

find_free_from-none :
    (i : ℕ) (slots : List TxSlot) → find_free_from i slots ≡ none → busy slots ≡ length slots
unfolding find_free_from busy
find_free_from-none i [] h = refl
find_free_from-none i (slot ∷ slots) h = ground (arith, find_free_from-none (i + 1) slots)

pub find_free_tx_slot-IsFirstFree :
    (slots : List TxSlot) {k : ℕ} → find_free_tx_slot slots ≡ some k → IsFirstFree slots k
unfolding find_free_tx_slot
find_free_tx_slot-IsFirstFree slots {k} h =
    let (r, at, v) = find_free_from-IsFirstFree 0 k slots h in
    let e : r ≡ k = omega (arith, at) in subst (λ (t : ℕ). IsFirstFree slots t) e v

-- What the search should answer.
abbrev pub Found : List TxSlot → Option ℕ → Type 0
Found slots (some k) = IsFirstFree slots k
Found slots none = busy slots ≡ length slots

Found-answer : (slots : List TxSlot) (o : Option ℕ) → find_free_tx_slot slots ≡ o → Found slots o
unfolding find_free_tx_slot
Found-answer slots (some k) h = find_free_tx_slot-IsFirstFree slots h
Found-answer slots none h = find_free_from-none 0 slots h

-- `find_free_tx_slot` returns a slot exactly where one is free, and then it is the first one: it
-- lies in the pool, it is not in flight, and every slot before it is. Otherwise all of them are in
-- flight.
find_free_tx_slot_lem : (slots : List TxSlot) → Found slots (find_free_tx_slot slots)
find_free_tx_slot_lem slots = Found-answer slots (find_free_tx_slot slots) refl
