-- ===== src/Device/Negotiation.antt =====
-- What a negotiation does to the device, whatever the device answers.
pub mod Outcome
use advcpp.Prelude.{
  ℕ, zero, suc, ◌+◌, ◌%◌, ◌^◌, ◌≤◌, ◌≡◌, refl, ap, ◌∙◌, ◌≢◌, ◌⊎◌, inl, inr, List, [], ◌∷◌, ◌++◌,
  arith, ◌==◌, Bool-cases, length, u32, size_max, ok, err,
}
use mathlib.Core.List.{reverse, reverse-cons, append_assoc}
use advcpp.Prelude.{status_timeout}
use advcpp.Mmio.{MappedRegion, History, Io, loaded, stored, ◌>>=◌, ◌>>◌, lift}
use advcpp.Mmio.Range.{read8-in, read32-in, write8-in, write32-in}
use advcpp.Mmio.Traces.{stores_at, loads_at}
use advcpp.Device.Registers.{at}
use advcpp.Device.{
  FeatureWords, read_status, write_status, wait_for_status, reset_device, read_words, write_words,
  read_feature_words, write_guest_feature_words,
}

-- A run that succeeds with a result of which `P` holds, stores only outside `C` and loads only
-- outside `L`.
abbrev pub Runs :
    {A : Type 0} → (ℕ → Type 0) → (ℕ → Type 0) → (A → History → Type 0) → Io A → History → Type 0
Runs {A} C L P op h =
    (a : A) × (g : History) × (op h ≡ (ok a, g))
    × P a g
    × ((o : ℕ) → C o → stores_at o g ≡ stores_at o h)
    × ((o : ℕ) → L o → loads_at o g ≡ loads_at o h)

-- The words that a loop over `left` words from `word` on selects.
abbrev pub selected : ℕ → ℕ → List ℕ
selected word zero = []
selected word (suc left) = u32 word ∷ selected (word + 1) left

-- The words that a run has returned are those that the device has answered, each after its
-- selection.
pub record WereRead (delta : ℕ) (words numbers : List ℕ) (h g : History) : Type 0 where
  pub answered : loads_at (at delta 4) g ≡ reverse words ++ loads_at (at delta 4) h
  pub asked : stores_at (at delta 0) g ≡ reverse numbers ++ stores_at (at delta 0) h

module _ (m : MappedRegion) (delta : ℕ) (room : delta + 64 ≤ m.size)
    (fits : m.size ≤ size_max) where
  abbrev pub status_at : ℕ
  status_at = at delta 20

  pub read_status-run :
      (h : History)
      → let v = m.device h 1 status_at % 2 ^ 8 in
        read_status m delta h ≡ (ok v, loaded 1 status_at v ∷ h)
  unfolding read_status
  read_status-run h = read8-in m status_at h (omega arith)

  pub write_status-run :
      (v : ℕ) (h : History) → write_status m delta v h ≡ (ok tt, stored 1 status_at v ∷ h)
  unfolding write_status
  write_status-run v h = write8-in m status_at h v (omega arith)

  -- Waiting stores nothing, and ends in success or in a timeout.
  pub wait_for_status-run :
      (polls expected : ℕ) (h : History)
      → Runs
          (λ o. Unit {0})
          (λ o. o ≢ status_at)
          (λ _ g. Unit {0})
          (wait_for_status polls m delta expected)
          h
        ⊎ ((g : History) × (wait_for_status polls m delta expected h ≡ (err status_timeout, g))
            × ((o : ℕ) → stores_at o g ≡ stores_at o h))
  unfolding wait_for_status
  wait_for_status-run zero expected h =
      let v = m.device h 1 status_at % 2 ^ 8 in
      inr (loaded 1 status_at v ∷ h, rw (read_status-run h) refl, λ o. refl)
  wait_for_status-run (suc polls) expected h =
      let v = m.device h 1 status_at % 2 ^ 8 in
      elim (Bool-cases (v == expected)) [
        | inl hit ↦ inl (
          tt,
          loaded 1 status_at v ∷ h,
          rw (read_status-run h, hit) refl,
          tt,
          λ o _. refl,
          λ o ne. ground arith,
        )
        | inr miss ↦
            rw (read_status-run h, miss)
              (elim (wait_for_status-run polls expected (loaded 1 status_at v ∷ h)) [
                | inl (_, g, run, _, quiet, unread) ↦
                    inl (tt, g, run, tt, quiet, λ o ne. unread o ne ∙ ground arith)
                | inr late ↦ inr late
              ])
      ]

  -- Reading the device's words stores at their selector alone, and loads the words.
  read_words-run :
      (word left : ℕ) (h : History)
      → Runs
          (λ o. o ≢ at delta 0)
          (λ o. o ≢ at delta 4)
          (λ ws g. (length ws ≡ left) × WereRead delta ws (selected word left) h g)
          (read_words m delta 0 4 word left)
          h
  unfolding read_words
  read_words-run word zero h =
      ([], h, refl, (refl, record { answered = refl; asked = refl }), λ o _. refl, λ o _. refl)
  read_words-run word (suc left) h =
      let h1 = stored 4 (at delta 0) (u32 word) ∷ h in
      let v = m.device h1 4 (at delta 4) % 2 ^ 32 in
      let h2 = loaded 4 (at delta 4) v ∷ h1 in
      let (ws, g, run, (len, were), quiet, unread) = read_words-run (word + 1) left h2 in
      let answer : loads_at (at delta 4) h2 ≡ v ∷ loads_at (at delta 4) h = ground arith in
      let question : stores_at (at delta 0) h2 ≡ u32 word ∷ stores_at (at delta 0) h =
        ground arith in
      (
        v ∷ ws,
        g,
        rw
            (
              write32-in m (at delta 0) h (u32 word) (omega arith),
              read32-in m (at delta 4) h1 (omega arith),
              run,
            )
            refl,
        (
          ap suc len,
          record {
            answered =
                were.answered
                ∙ ap (λ t. reverse ws ++ t) answer
                ∙ rw (reverse-cons, append_assoc) refl;
            asked =
                were.asked
                ∙ ap (λ t. reverse (selected (word + 1) left) ++ t) question
                ∙ rw (reverse-cons, append_assoc) refl;
          },
        ),
        λ o ne. quiet o ne ∙ ground arith,
        λ o ne. unread o ne ∙ ground arith,
      )

  pub read_feature_words-run :
      (h : History)
      → Runs
          (λ o. o ≢ at delta 0)
          (λ o. (o ≢ at delta 0) × (o ≢ at delta 4))
          (λ r g.
            (length r.words ≡ 3) × WereRead delta r.words (0 ∷ 1 ∷ 2 ∷ r.original_select ∷ []) h g)
          (read_feature_words m delta 0 4 3)
          h
  unfolding read_feature_words
  read_feature_words-run h =
      let v = m.device h 4 (at delta 0) % 2 ^ 32 in
      let h1 = loaded 4 (at delta 0) v ∷ h in
      let (ws, g, run, (len, were), quiet, unread) = read_words-run 0 3 h1 in
      let first : loads_at (at delta 4) h1 ≡ loads_at (at delta 4) h = ground arith in
      let last : stores_at (at delta 0) (stored 4 (at delta 0) v ∷ g)
          ≡ v ∷ stores_at (at delta 0) g =
        ground arith in
      (
        record { original_select = v; words = ws },
        stored 4 (at delta 0) v ∷ g,
        rw
            (
              read32-in m (at delta 0) h (omega arith),
              run,
              write32-in m (at delta 0) g v (omega arith),
            )
            refl,
        (
          len,
          record {
            answered = were.answered ∙ ap (λ t. reverse ws ++ t) first;
            asked = last ∙ ap (λ t. v ∷ t) were.asked;
          },
        ),
        λ o ne. ground (arith, quiet o ne),
        λ o ne. unread o ne.1 ∙ ground arith,
      )

  -- Writing the guest's words stores them in order, and otherwise at their selector alone.
  write_words-run :
      (word : ℕ) (values : List ℕ) (h : History)
      → Runs
          (λ o. (o ≢ at delta 8) × (o ≢ at delta 12))
          (λ o. Unit {0})
          (λ _ g. stores_at (at delta 12) g ≡ reverse values ++ stores_at (at delta 12) h)
          (write_words m delta word values)
          h
  unfolding write_words
  write_words-run word [] h = (tt, h, refl, refl, λ o _. refl, λ o _. refl)
  write_words-run word (value ∷ values) h =
      let h1 = stored 4 (at delta 8) (u32 word) ∷ h in
      let h2 = stored 4 (at delta 12) value ∷ h1 in
      let (_, g, run, written, quiet, unread) = write_words-run (word + 1) values h2 in
      let top : stores_at (at delta 12) h2 ≡ value ∷ stores_at (at delta 12) h = ground arith in
      (
        tt,
        g,
        rw
            (
              write32-in m (at delta 8) h (u32 word) (omega arith),
              write32-in m (at delta 12) h1 value (omega arith),
              run,
            )
            refl,
        written ∙ ap (λ t. reverse values ++ t) top ∙ rw (reverse-cons, append_assoc) refl,
        λ o ne. quiet o ne ∙ ground arith,
        λ o _. unread o tt,
      )

  pub write_guest_feature_words-run :
      (values : List ℕ) (h : History)
      → Runs
          (λ o. (o ≢ at delta 8) × (o ≢ at delta 12))
          (λ o. o ≢ at delta 8)
          (λ _ g. stores_at (at delta 12) g ≡ reverse values ++ stores_at (at delta 12) h)
          (write_guest_feature_words m delta values)
          h
  unfolding write_guest_feature_words
  write_guest_feature_words-run values h =
      let v = m.device h 4 (at delta 8) % 2 ^ 32 in
      let h1 = loaded 4 (at delta 8) v ∷ h in
      let (_, g, run, written, quiet, unread) = write_words-run 0 values h1 in
      (
        tt,
        stored 4 (at delta 8) v ∷ g,
        rw
            (
              read32-in m (at delta 8) h (omega arith),
              run,
              write32-in m (at delta 8) g v (omega arith),
            )
            refl,
        ground (arith, written),
        λ o ne. ground (arith, quiet o ne),
        λ o ne. unread o tt ∙ ground arith,
      )
