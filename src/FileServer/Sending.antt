-- ===== src/FileServer/Sending.antt =====
-- The loop that sends a text: it ends, and a kernel that makes progress is given all of it.
use advcpp.Prelude.{
  ℕ, zero, suc, ◌+◌, ◌≤◌, ◌≡◌, refl, sym, ap, ◌∙◌, Bool, true, false, Option, some, [], ◌∷◌, ◌++◌,
  length, take, drop, take-append-drop, arith,
}
use mathlib.Core.List.{append-nil, append_assoc}
use advcpp.Arguments.{Text}
use advcpp.Server.{done, failed}
use advcpp.FileServer.{Kernel, Session, send_loop, send_all}

length-drop-suc :
    (n : ℕ) (xs : Text) (f : ℕ) (b : ℕ) → length (b ∷ xs) ≤ suc f → length (drop n xs) ≤ f
length-drop-suc zero xs f b h = omega arith
length-drop-suc (suc n) [] f b h = omega arith
length-drop-suc (suc n) (x ∷ xs) f b h = length-drop-suc n xs f x (omega arith)

-- The loop has ended and has closed nothing.
abbrev pub Ended : Session → Option (Bool × Session) → Type 0
Ended c r = (all : Bool) × (c' : Session) × (r ≡ some (all, c')) × (c'.closed ≡ c.closed)

module _ (k : Kernel) where
  -- However the kernel answers, the loop ends.
  pub send_loop-ends :
      (fuel : ℕ) (left : Text) (c : Session)
      → length left ≤ fuel
      → Ended c (send_loop k fuel left c)
  unfolding send_loop
  send_loop-ends fuel [] c h = (true, c, refl, refl)
  send_loop-ends zero (b ∷ left) c h = absurd (omega arith)
  send_loop-ends (suc fuel) (b ∷ left) c h =
      elim (k.send c.awaited (b ∷ left))
        as (λ a. Ended c (elim a as (λ x. Option (Bool × Session)) [
          | failed errno ↦ some (false, record c { awaited = c.awaited + 1 })
          | done zero ↦ some (false, record c { awaited = c.awaited + 1 })
          | done (suc n) ↦
              send_loop k fuel (drop (suc n) (b ∷ left))
                (record c { awaited = c.awaited + 1; sent = c.sent ++ take (suc n) (b ∷ left) })
        ])) [
          | failed errno ↦ (false, record c { awaited = c.awaited + 1 }, refl, refl)
          | done zero ↦ (false, record c { awaited = c.awaited + 1 }, refl, refl)
          | done (suc n) ↦
              send_loop-ends fuel (drop n left)
                (record c { awaited = c.awaited + 1; sent = c.sent ++ b ∷ take n left })
                (length-drop-suc n left fuel b h)
        ]

  pub send_all-ends : (text : Text) (c : Session) → Ended c (send_all k text c)
  unfolding send_all
  send_all-ends text c = send_loop-ends (length text) text c (omega arith)

-- Each `send` takes a byte or more of what it is given.
abbrev pub Progresses : Kernel → Type 0
Progresses k =
    (n : ℕ) (b : ℕ) (left : Text)
    → (m : ℕ) × (k.send n (b ∷ left) ≡ done (suc m)) × (m ≤ length left)

-- All of a text was sent behind what was sent before.
pub record SentAll (c : Session) (text : Text) (c' : Session) : Type 0 where
  pub sent : c'.sent ≡ c.sent ++ text
  pub closed : c'.closed ≡ c.closed

module _ (k : Kernel) (progresses : Progresses k) where
  pub send_loop-SentAll :
      (fuel : ℕ) (left : Text) (c : Session)
      → length left ≤ fuel
      → (c' : Session) × (send_loop k fuel left c ≡ some (true, c')) × SentAll c left c'
  unfolding send_loop
  send_loop-SentAll fuel [] c h =
      (c, refl, record { sent = sym (append-nil c.sent); closed = refl })
  send_loop-SentAll zero (b ∷ left) c h = absurd (omega arith)
  send_loop-SentAll (suc fuel) (b ∷ left) c h =
      let (m, answer, fits) = progresses c.awaited b left in
      let next : Session = record c { awaited = c.awaited + 1; sent = c.sent ++ b ∷ take m left } in
      let (c', run, all) =
        send_loop-SentAll fuel (drop m left) next (length-drop-suc m left fuel b h) in
      (
        c',
        rw (answer, send_loop) run,
        record {
          sent =
              all.sent
              ∙ append_assoc c.sent (b ∷ take m left) (drop m left)
              ∙ ap (λ (t : Text). c.sent ++ b ∷ t) (take-append-drop m left);
          closed = all.closed;
        },
      )

  pub send_all-SentAll :
      (text : Text) (c : Session)
      → (c' : Session) × (send_all k text c ≡ some (true, c')) × SentAll c text c'
  unfolding send_all
  send_all-SentAll text c = send_loop-SentAll (length text) text c (omega arith)
