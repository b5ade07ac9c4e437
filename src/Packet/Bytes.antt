-- ===== src/Packet/Bytes.antt =====
-- Bytes read back from the memory: after a copy, next to one, and in pieces.
use advcpp.Prelude.{
  ℕ, zero, suc, ◌+◌, ◌-◌, ◌≤◌, ◌<◌, ◌≡◌, refl, sym, ap, ◌∙◌, ◌⊎◌, List, [], ◌∷◌, ◌++◌, arith,
  length, get_or, drop, replicate,
}
use mathlib.Core.Path.{ap₂}
use advcpp.Memory.{Memory}
use advcpp.Packet.{memset, copy_bytes, read_bytes}

pub read_bytes-add :
    (n k a : ℕ) (m : Memory) → read_bytes (n + k) a m ≡ read_bytes n a m ++ read_bytes k (a + n) m
unfolding read_bytes
read_bytes-add zero k a m =
    let e : 0 + k ≡ k = omega arith in let f : a + 0 ≡ a = omega arith in rw (e, f) refl
read_bytes-add (suc n) k a m =
    let e : suc n + k ≡ suc (n + k) = omega arith in
    let f : a + suc n ≡ a + 1 + n = omega arith in
    rw (e, f) (ap (λ t. m a ∷ t) (read_bytes-add n k (a + 1) m))

-- Two memories that agree on a range read alike there.
pub read_bytes-ext :
    (n a : ℕ) (m m' : Memory)
    → ((x : ℕ) → a ≤ x → x < a + n → m x ≡ m' x)
    → read_bytes n a m ≡ read_bytes n a m'
unfolding read_bytes
read_bytes-ext zero a m m' h = refl
read_bytes-ext (suc n) a m m' h =
    ap₂ ◌∷◌ (h a (omega arith) (omega arith))
      (read_bytes-ext n (a + 1) m m' (λ x lo hi. h x (omega arith) (omega arith)))

pub length-read_bytes : (n a : ℕ) (m : Memory) → length (read_bytes n a m) ≡ n
unfolding read_bytes
length-read_bytes zero a m = refl
length-read_bytes (suc n) a m = ap suc (length-read_bytes n (a + 1) m)

copy_byte :
    (a i : ℕ) (bytes : List ℕ) (m : Memory)
    → i < length bytes
    → copy_bytes a bytes m (a + i) ≡ get_or bytes i 0
unfolding copy_bytes
copy_byte a i bytes m h =
    let e : a + i - a ≡ i = omega arith in ground (arith, ap (λ (t : ℕ). get_or bytes t 0) e)

get_or-drop : (i : ℕ) (xs : List ℕ) → i < length xs → drop i xs ≡ get_or xs i 0 ∷ drop (suc i) xs
get_or-drop i [] h = absurd (omega arith)
get_or-drop zero (x ∷ xs) h = refl
get_or-drop (suc i) (x ∷ xs) h = get_or-drop i xs (omega arith)

drop-all : (i : ℕ) (xs : List ℕ) → length xs ≤ i → drop i xs ≡ []
drop-all zero [] h = refl
drop-all zero (x ∷ xs) h = absurd (omega arith)
drop-all (suc i) [] h = refl
drop-all (suc i) (x ∷ xs) h = drop-all i xs (omega arith)

pub read_bytes-copied_from :
    (n a i : ℕ) (bytes : List ℕ) (m : Memory)
    → i + n ≡ length bytes
    → read_bytes n (a + i) (copy_bytes a bytes m) ≡ drop i bytes
unfolding read_bytes
read_bytes-copied_from zero a i bytes m h = sym (drop-all i bytes (omega arith))
read_bytes-copied_from (suc n) a i bytes m h =
    let e : a + i + 1 ≡ a + suc i = omega arith in
    rw
      (
        e,
        copy_byte a i bytes m (omega arith),
        read_bytes-copied_from n a (suc i) bytes m (omega arith),
      )
      (sym (get_or-drop i bytes (omega arith)))

-- What was copied is read back.
pub read_bytes-copied :
    (n a : ℕ) (bytes : List ℕ) (m : Memory)
    → n ≡ length bytes
    → read_bytes n a (copy_bytes a bytes m) ≡ bytes
read_bytes-copied n a bytes m h =
    let e : a ≡ a + 0 = omega arith in
    ap (λ (t : ℕ). read_bytes n t (copy_bytes a bytes m)) e
    ∙ read_bytes-copied_from n a 0 bytes m (omega arith)

-- A copy elsewhere changes nothing.
pub read_bytes-beside :
    (n a b : ℕ) (bytes : List ℕ) (m : Memory)
    → (a + n ≤ b) ⊎ (b + length bytes ≤ a)
    → read_bytes n a (copy_bytes b bytes m) ≡ read_bytes n a m
read_bytes-beside n a b bytes m h = read_bytes-ext n a (copy_bytes b bytes m) m same
  where
    same : (x : ℕ) → a ≤ x → x < a + n → copy_bytes b bytes m x ≡ m x
    same x lo hi = unfold copy_bytes in (ground arith)

pub read_bytes-memset :
    (n a b k v : ℕ) (m : Memory)
    → b ≤ a
    → a + n ≤ b + k
    → read_bytes n a (memset b v k m) ≡ replicate n v
unfolding read_bytes memset
read_bytes-memset zero a b k v m lo hi = refl
read_bytes-memset (suc n) a b k v m lo hi =
    ap₂ ◌∷◌ (ground arith) (read_bytes-memset n (a + 1) b k v m (omega arith) (omega arith))

pub drop-read_bytes :
    (i k a : ℕ) (m : Memory) → drop i (read_bytes (i + k) a m) ≡ read_bytes k (a + i) m
unfolding read_bytes
drop-read_bytes zero k a m =
    let e : 0 + k ≡ k = omega arith in let f : a + 0 ≡ a = omega arith in rw (e, f) refl
drop-read_bytes (suc i) k a m =
    let e : suc i + k ≡ suc (i + k) = omega arith in
    let f : a + suc i ≡ a + 1 + i = omega arith in rw (e, f) (drop-read_bytes i k (a + 1) m)
