-- ===== src/Pool/Counts.antt =====
-- How often a descriptor or a buffer stands in a list, and in the events in flight.
use advcpp.Prelude.{
  ℕ, zero, suc, ◌+◌, ◌-◌, ◌<◌, ◌≡◌, refl, true, false, List, [], ◌∷◌, ◌++◌, ltb, ◌==◌,
  if◌then◌else◌, arith,
}
use advcpp.Server.{is_client, erase_fd}
use advcpp.Pool.{Event, accept, recv, send, add_bufs}

abbrev pub count : ℕ → List ℕ → ℕ
count a [] = 0
count a (b ∷ bs) = (if a == b then 1 else 0) + count a bs

pub count-is_client : (a : ℕ) (bs : List ℕ) → is_client a bs ≡ true → 0 < count a bs
unfolding is_client
count-is_client a [] h = cc
count-is_client a (b ∷ bs) h = ground (arith, count-is_client a bs)

pub count-not_client : (a : ℕ) (bs : List ℕ) → is_client a bs ≡ false → count a bs ≡ 0
unfolding is_client
count-not_client a [] h = refl
count-not_client a (b ∷ bs) h = ground (arith, count-not_client a bs)

-- Erasing takes one away, where there is one.
pub count-erase_fd :
    (a c : ℕ) (bs : List ℕ) → count a (erase_fd c bs) ≡ count a bs - (if a == c then 1 else 0)
unfolding erase_fd
count-erase_fd a c [] = ground arith
count-erase_fd a c (b ∷ bs) = ground (arith, count-erase_fd a c bs)

pub count-add_bufs : (a n : ℕ) → count a (add_bufs n) ≡ (if ltb a n then 1 else 0)
unfolding add_bufs
count-add_bufs a zero = ground arith
count-add_bufs a (suc n) = ground (arith, count-add_bufs a n)

abbrev pub accepts : Event → ℕ
accepts accept = 1
accepts (recv fd) = 0
accepts (send fd bid len offset) = 0

abbrev pub is_of : ℕ → Event → ℕ
is_of a accept = 0
is_of a (recv fd) = if a == fd then 1 else 0
is_of a (send fd bid len offset) = if a == fd then 1 else 0

abbrev pub uses : ℕ → Event → ℕ
uses b accept = 0
uses b (recv fd) = 0
uses b (send fd bid len offset) = if b == bid then 1 else 0

abbrev pub total : (Event → ℕ) → List Event → ℕ
total f [] = 0
total f (e ∷ events) = f e + total f events

-- An event in the middle counts as one in front.
pub total_front :
    (f : Event → ℕ) (before after : List Event) (e : Event)
    → total f (before ++ e ∷ after) ≡ f e + total f (before ++ after)
total_front f [] after e = refl
total_front f (e' ∷ before) after e = omega (arith, total_front f before after e)

abbrev pub All : (Event → Type 0) → List Event → Type 0
All P [] = Unit
All P (e ∷ events) = P e × All P events

pub All-front :
    (P : Event → Type 0) (before after : List Event) (e : Event)
    → All P (before ++ e ∷ after)
    → All P (e ∷ before ++ after)
All-front P [] after e h = h
All-front P (e' ∷ before) after e (h, hs) =
    let (here, rest) = All-front P before after e hs in (here, (h, rest))

-- A property that an event keeps where it does not count keeps in a list where none counts.
pub All-other :
    (P Q : Event → Type 0) (f : Event → ℕ)
    → ((e : Event) → f e ≡ 0 → P e → Q e)
    → (events : List Event) → total f events ≡ 0
    → All P events
    → All Q events
All-other P Q f keeps [] none_counts h = tt
All-other P Q f keeps (e ∷ events) none_counts (h, hs) =
    (keeps e (omega arith) h, All-other P Q f keeps events (omega arith) hs)
