-- ===== src/Memory/Words.antt =====
-- A word read back: where it was written, and where something else was.
use native.Mathlib.Nat.{pow-suc, pow-succ', div-div-eq-div-mul, mod-add-div, mod-one, div-one}
use advcpp.Prelude.{
  ℕ, zero, suc, ◌+◌, ◌-◌, ◌*◌, ◌/◌, ◌%◌, ◌^◌, ◌≤◌, ◌<◌, ◌≡◌, refl, sym, ap, ◌∙◌, ◌⊎◌, List, [], ◌∷◌,
  ◌++◌, arith, take,
}
use advcpp.Memory.{Memory, read_le, write_le, Effect, put, fence, perform}

div-pow : (j v : ℕ) → v / 256 ^ suc j ≡ v / 256 ^ j / 256
div-pow j v = rw (pow-suc 256 j) (sym (div-div-eq-div-mul v (256 ^ j) 256))

div-pow' : (k v : ℕ) → v / 256 ^ suc k ≡ v / 256 / 256 ^ k
div-pow' k v = rw (pow-succ' 256 k) (sym (div-div-eq-div-mul v 256 (256 ^ k)))

mod-pow : (k v : ℕ) → v % 256 ^ suc k ≡ v % 256 + 256 * (v / 256 % 256 ^ k)
mod-pow k v = omega (
  arith,
  mod-add-div v (256 ^ suc k),
  mod-add-div (v / 256) (256 ^ k),
  ap (λ (t : ℕ). 256 ^ suc k * t) (div-pow' k v),
  ap (λ (t : ℕ). t * (v / 256 / 256 ^ k)) (pow-succ' 256 k),
)

byte-inside :
    (n a v : ℕ) (m : Memory) (j : ℕ) → j < n → write_le n a v m (a + j) ≡ v / 256 ^ j % 256
unfolding write_le
byte-inside n a v m j h =
    let e : a + j - a ≡ j = omega arith in ground (arith, ap (λ (t : ℕ). v / 256 ^ t % 256) e)

read_le-inside :
    (n a v : ℕ) (m : Memory) (k j : ℕ)
    → j + k ≤ n
    → read_le k (a + j) (write_le n a v m) ≡ v / 256 ^ j % 256 ^ k
unfolding read_le
read_le-inside n a v m zero j h = sym (mod-one (v / 256 ^ j))
read_le-inside n a v m (suc k) j h =
    let e : a + j + 1 ≡ a + suc j = omega arith in
    rw
      (
        e,
        read_le-inside n a v m k (suc j) (omega arith),
        byte-inside n a v m j (omega arith),
        mod-pow k (v / 256 ^ j),
        div-pow j v,
      )
      refl

-- A word that was written is read back, as far as it fits.
pub read_le-write_le : (n a v : ℕ) (m : Memory) → read_le n a (write_le n a v m) ≡ v % 256 ^ n
read_le-write_le n a v m =
    let e : a ≡ a + 0 = omega arith in
    ap (λ (t : ℕ). read_le n t (write_le n a v m)) e
    ∙ read_le-inside n a v m n 0 (omega arith)
    ∙ ap (λ (t : ℕ). t % 256 ^ n) (div-one v)

-- A word elsewhere is not changed.
pub byte-outside : (x n a v : ℕ) (m : Memory) → (x < a) ⊎ (a + n ≤ x) → write_le n a v m x ≡ m x
unfolding write_le
byte-outside x n a v m h = ground arith

pub read_le-write_ne :
    (k b n a v : ℕ) (m : Memory)
    → (b + k ≤ a) ⊎ (a + n ≤ b)
    → read_le k b (write_le n a v m) ≡ read_le k b m
unfolding read_le
read_le-write_ne zero b n a v m h = refl
read_le-write_ne (suc k) b n a v m h =
    rw (read_le-write_ne k (b + 1) n a v m (omega arith), byte-outside b n a v m (omega arith)) refl

-- The range of a list of effects, and what lies outside it.
abbrev pub Within : ℕ → ℕ → List Effect → Type 0
Within lo hi [] = Unit {0}
Within lo hi (put n a v ∷ es) = (lo ≤ a) × (a + n ≤ hi) × Within lo hi es
Within lo hi (fence ∷ es) = Within lo hi es

pub perform-append :
    (es fs : List Effect) (m : Memory) → perform (es ++ fs) m ≡ perform fs (perform es m)
unfolding perform
perform-append [] fs m = refl
perform-append (put n a v ∷ es) fs m = perform-append es fs (write_le n a v m)
perform-append (fence ∷ es) fs m = perform-append es fs m

pub read_le-perform :
    (k b lo hi : ℕ) (es : List Effect) (m : Memory)
    → Within lo hi es
    → (b + k ≤ lo) ⊎ (hi ≤ b)
    → read_le k b (perform es m) ≡ read_le k b m
unfolding perform
read_le-perform k b lo hi [] m w h = refl
read_le-perform k b lo hi (put n a v ∷ es) m w h =
    read_le-perform k b lo hi es (write_le n a v m) w.2 h
    ∙ read_le-write_ne k b n a v m (omega arith)
read_le-perform k b lo hi (fence ∷ es) m w h = read_le-perform k b lo hi es m w h

-- Effects none of which touches the `k` bytes at `b`.
abbrev pub Avoids : ℕ → ℕ → List Effect → Type 0
Avoids b k [] = Unit {0}
Avoids b k (put n a v ∷ es) = ((b + k ≤ a) ⊎ (a + n ≤ b)) × Avoids b k es
Avoids b k (fence ∷ es) = Avoids b k es

pub read_le-avoid :
    (b k : ℕ) (es : List Effect) (m : Memory)
    → Avoids b k es
    → read_le k b (perform es m) ≡ read_le k b m
unfolding perform
read_le-avoid b k [] m w = refl
read_le-avoid b k (put n a v ∷ es) m w =
    read_le-avoid b k es (write_le n a v m) w.1 ∙ read_le-write_ne k b n a v m w.0
read_le-avoid b k (fence ∷ es) m w = read_le-avoid b k es m w

-- What was performed when the device looks is a prefix of the effects.
pub Avoids-take : (b k n : ℕ) (es : List Effect) → Avoids b k es → Avoids b k (take n es)
Avoids-take b k zero es w = tt
Avoids-take b k (suc n) [] w = tt
Avoids-take b k (suc n) (put w a v ∷ es) h = (h.0, Avoids-take b k n es h.1)
Avoids-take b k (suc n) (fence ∷ es) h = Avoids-take b k n es h
