-- ===== src/Dma/Pages.antt =====
-- The pages of a DMA mapping: where an area may start, and areas that lie in order.
use advcpp.Prelude.{
  ℕ, ◌+◌, ◌%◌, ◌≤◌, ◌≡◌, List, [], ◌∷◌, arith, size_max, Result, ok, ◌>>=◌, >>=-eq-ok,
}
use advcpp.Sizes.{round_up_to_page, checked_add}
use advcpp.Sizes.Laws.{round_up_to_page-ok, checked_add_iff}

-- `round_up_to_page(checked_add(offset, size, ...))`: where the next area may start.
unfoldable pub page_after : ℕ → ℕ → ℕ → Result ℕ
page_after page offset size = do end ← checked_add offset size; round_up_to_page page end

-- The areas, each an offset with a size, lie in order behind `from` and before `total`, each on a
-- multiple of `page`.
abbrev pub Stacked : ℕ → ℕ → List (ℕ × ℕ) → ℕ → Type 0
Stacked page from [] total = from ≤ total
Stacked page from ((offset, size) ∷ rest) total =
    (from ≤ offset) × (offset % page ≡ 0) × Stacked page (offset + size) rest total

-- Where the next area starts: on a page, at or after the end of the one before.
pub page_after-ok :
    (page offset size : ℕ) {r : ℕ}
    → page ≤ size_max
    → size ≤ size_max
    → page_after page offset size ≡ ok r
    → (r % page ≡ 0) × (offset + size ≤ r) × (r ≤ size_max)
unfolding page_after
page_after-ok page offset size {r} hp hs h =
    let (end, added, rounded) = >>=-eq-ok (checked_add offset size) (round_up_to_page page) h in
    let (exact, _) = (checked_add_iff offset size end hs).0 added in
    let (_, w) = round_up_to_page-ok page end hp rounded in
    (w.multiple, omega (arith, w.above), w.fits)
