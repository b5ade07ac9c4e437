-- ===== src/Device/Negotiation/Outcome.antt =====
-- The outcomes of the negotiations, each with what was stored in the status register and in the
-- guest's feature words.
use mathlib.Core.List.{reverse}
use advcpp.Prelude.{
  ℕ, ◌+◌, ◌%◌, ◌^◌, ◌≤◌, bit_and, ◌≡◌, refl, ap, ◌∙◌, ◌≢◌, ◌⊎◌, inl, inr, List, [], ◌∷◌, ◌++◌,
  arith, ◌==◌, Bool-cases, ==→eq, length, size_max, Error, Result, ok, err, Result-cases,
}
use advcpp.Prelude.{status_timeout, features_rejected}
use advcpp.Mmio.{MappedRegion, History, loaded, stored}
use advcpp.Mmio.Traces.{stores_at, loads_at}
use advcpp.Features.{ctrl_rx_guest_features, ctrl_mac_addr_guest_features}
use advcpp.Device.Registers.{at}
use advcpp.Device.Negotiation.{
  Runs, WereRead, read_status-run, write_status-run, wait_for_status-run, read_feature_words-run,
  write_guest_feature_words-run,
}
use advcpp.Device.{
  reset_device, negotiate, finish, negotiate_ctrl_rx_features, negotiate_ctrl_mac_addr_features,
}

-- What was chosen: from the three words that the device has answered for the selectors 0, 1 and 2,
-- before the selector was put back.
pub record Chose (choose : List ℕ → Result (List ℕ)) (delta : ℕ) (r : Result (List ℕ))
    (h g : History) : Type 0 where
  pub device : List ℕ
  pub size : length device ≡ 3
  pub original : ℕ
  pub were : WereRead delta device (0 ∷ 1 ∷ 2 ∷ original ∷ []) h g
  pub chosen : choose device ≡ r

-- How a negotiation ends. Newest first: 0 resets the device, 1 acknowledges it, 3 is the driver,
-- and 11 asks it to accept the features.
pub data Negotiated (choose : List ℕ → Result (List ℕ)) (delta : ℕ) (h : History)
    : Result (List ℕ) → History → Type 0 where
  timed_out :
      {g : History}
      → stores_at (at delta 20) g ≡ 0 ∷ stores_at (at delta 20) h
      → Negotiated choose delta h (err status_timeout) g
  refused :
      {g : History} {e : Error}
      → Chose choose delta (err e) h g
      → stores_at (at delta 20) g ≡ 3 ∷ 1 ∷ 0 ∷ stores_at (at delta 20) h
      → stores_at (at delta 12) g ≡ stores_at (at delta 12) h
      → Negotiated choose delta h (err e) g
  rejected :
      {g : History} {guest : List ℕ} (status : ℕ)
      → Chose choose delta (ok guest) h (loaded 1 (at delta 20) status ∷ g)
      → stores_at (at delta 20) (loaded 1 (at delta 20) status ∷ g)
        ≡ 11 ∷ 3 ∷ 1 ∷ 0 ∷ stores_at (at delta 20) h
      → stores_at (at delta 12) g ≡ reverse guest ++ stores_at (at delta 12) h
      → bit_and status 8 ≡ 0
      → Negotiated choose delta h (err features_rejected) (loaded 1 (at delta 20) status ∷ g)
  accepted :
      {g : History} {guest : List ℕ} (status : ℕ)
      → Chose choose delta (ok guest) h (loaded 1 (at delta 20) status ∷ g)
      → stores_at (at delta 20) (loaded 1 (at delta 20) status ∷ g)
        ≡ 11 ∷ 3 ∷ 1 ∷ 0 ∷ stores_at (at delta 20) h
      → stores_at (at delta 12) g ≡ reverse guest ++ stores_at (at delta 12) h
      → bit_and status 8 ≢ 0
      → Negotiated choose delta h (ok guest) (loaded 1 (at delta 20) status ∷ g)

module _ (m : MappedRegion) (delta : ℕ) (room : delta + 64 ≤ m.size)
    (fits : m.size ≤ size_max) where
  -- A reset stores 0 in the status register, and nothing else.
  pub reset_device-run :
      (polls : ℕ) (h : History)
      → Runs
          (λ o. o ≢ at delta 20)
          (λ o. o ≢ at delta 20)
          (λ _ g. stores_at (at delta 20) g ≡ 0 ∷ stores_at (at delta 20) h)
          (reset_device polls m delta)
          h
        ⊎ ((g : History) × (reset_device polls m delta h ≡ (err status_timeout, g))
            × (stores_at (at delta 20) g ≡ 0 ∷ stores_at (at delta 20) h))
  unfolding reset_device
  reset_device-run polls h =
      let h1 = stored 1 (at delta 20) 0 ∷ h in
      let top : stores_at (at delta 20) h1 ≡ 0 ∷ stores_at (at delta 20) h = ground arith in
      elim (wait_for_status-run m delta room fits polls 0 h1) [
        | inl (_, g, run, _, quiet, unread) ↦
            let v = m.device g 1 (at delta 20) % 2 ^ 8 in
            inl (
              tt,
              loaded 1 (at delta 20) v ∷ g,
              rw (write_status-run m delta room fits 0 h, run, read_status-run m delta room fits g)
                  refl,
              quiet (at delta 20) tt ∙ top,
              λ o ne. quiet o tt ∙ ground arith,
              λ o ne. ground (arith, unread o ne),
            )
        | inr (g, run, quiet) ↦
            inr
              (g, rw (write_status-run m delta room fits 0 h, run) refl, quiet (at delta 20) ∙ top)
      ]

  -- What was read does not change where neither a word is read nor one is selected.
  Chose-later :
      {choose : List ℕ → Result (List ℕ)} {r : Result (List ℕ)} (h g g' : History)
      → Chose choose delta r h g
      → loads_at (at delta 4) g' ≡ loads_at (at delta 4) g
      → stores_at (at delta 0) g' ≡ stores_at (at delta 0) g
      → Chose choose delta r h g'
  Chose-later h g g' c loads stores = record {
    device = c.device;
    size = c.size;
    original = c.original;
    were = record { answered = loads ∙ c.were.answered; asked = stores ∙ c.were.asked };
    chosen = c.chosen;
  }

  -- The part behind the choice of the features, from the history `g` that the choice was made in.
  finish-Negotiated :
      (choose : List ℕ → Result (List ℕ)) (guest : List ℕ) (h g : History)
      → Chose choose delta (ok guest) h g
      → stores_at (at delta 20) g ≡ 3 ∷ 1 ∷ 0 ∷ stores_at (at delta 20) h
      → stores_at (at delta 12) g ≡ stores_at (at delta 12) h
      → let r = finish m delta guest g in Negotiated choose delta h r.0 r.1
  unfolding finish
  finish-Negotiated choose guest h g chose status words =
      let (_, g1, run, written, quiet, unread) =
        write_guest_feature_words-run m delta room fits guest g in
      let h1 = stored 1 (at delta 20) 11 ∷ g1 in
      let v = m.device h1 1 (at delta 20) % 2 ^ 8 in
      let h2 = loaded 1 (at delta 20) v ∷ h1 in
      let old = quiet (at delta 20) (omega arith) in
      let top : stores_at (at delta 20) h1 ≡ 11 ∷ 3 ∷ 1 ∷ 0 ∷ stores_at (at delta 20) h =
        ground (arith, old, status) in
      let same : stores_at (at delta 12) h1 ≡ reverse guest ++ stores_at (at delta 12) h =
        ground (arith, written, words) in
      let loads : loads_at (at delta 4) h2 ≡ loads_at (at delta 4) g =
        ground (arith, unread (at delta 4) (omega arith)) in
      let selects : stores_at (at delta 0) h2 ≡ stores_at (at delta 0) g =
        ground (arith, quiet (at delta 0) (omega arith)) in
      let later = Chose-later h g h2 chose loads selects in
      rw (run, write_status-run m delta room fits 11 g1, read_status-run m delta room fits h1)
        (elim (Bool-cases (bit_and v 8 == 0)) [
          | inl unset ↦ rw unset (rejected v later top same (==→eq (bit_and v 8) 0 unset))
          | inr kept ↦ rw kept (accepted v later top same (ground arith))
        ])

  negotiate-Negotiated :
      (choose : List ℕ → Result (List ℕ)) (polls : ℕ) (h : History)
      → let r = negotiate choose polls m delta h in Negotiated choose delta h r.0 r.1
  unfolding negotiate
  negotiate-Negotiated choose polls h = elim (reset_device-run polls h) [
    | inr (g, run, status) ↦ rw run (timed_out status)
    | inl (_, g0, run, status, quiet, unread) ↦
        let h1 = stored 1 (at delta 20) 1 ∷ g0 in
        let v1 = m.device h1 1 (at delta 20) % 2 ^ 8 in
        let h2 = loaded 1 (at delta 20) v1 ∷ h1 in
        let h3 = stored 1 (at delta 20) 3 ∷ h2 in
        let v3 = m.device h3 1 (at delta 20) % 2 ^ 8 in
        let h4 = loaded 1 (at delta 20) v3 ∷ h3 in
        let (device, g5, read, (len, were), quiet5, _) =
          read_feature_words-run m delta room fits h4 in
        let top : stores_at (at delta 20) g5 ≡ 3 ∷ 1 ∷ 0 ∷ stores_at (at delta 20) h =
          ground (arith, quiet5 (at delta 20) (omega arith), status) in
        let words : stores_at (at delta 12) g5 ≡ stores_at (at delta 12) h =
          ground (arith, quiet5 (at delta 12) (omega arith), quiet (at delta 12) (omega arith)) in
        let loads : loads_at (at delta 4) h4 ≡ loads_at (at delta 4) h =
          ground (arith, unread (at delta 4) (omega arith)) in
        let selects : stores_at (at delta 0) h4 ≡ stores_at (at delta 0) h =
          ground (arith, quiet (at delta 0) (omega arith)) in
        let chose : (r : Result (List ℕ)) → choose device.words ≡ r → Chose choose delta r h g5 =
          λ r chosen. record {
            device = device.words;
            size = len;
            original = device.original_select;
            were = record {
              answered = were.answered ∙ ap (λ t. reverse device.words ++ t) loads;
              asked = were.asked ∙ ap (λ t. device.original_select ∷ 2 ∷ 1 ∷ 0 ∷ t) selects;
            };
            chosen = chosen;
          } in
        rw
          (
            run,
            write_status-run m delta room fits 1 g0,
            read_status-run m delta room fits h1,
            write_status-run m delta room fits 3 h2,
            read_status-run m delta room fits h3,
            read,
          )
          (elim (Result-cases (choose device.words)) [
            | inr (e, denied) ↦ rw denied (refused (chose (err e) denied) top words)
            | inl (guest, chosen) ↦
                rw chosen (finish-Negotiated choose guest h g5 (chose (ok guest) chosen) top words)
          ])
  ]

  -- The same for the features that a control queue with receive modes needs.
  negotiate_ctrl_rx_features-Negotiated :
      (polls : ℕ) (h : History)
      → let r = negotiate_ctrl_rx_features polls m delta h in
        Negotiated ctrl_rx_guest_features delta h r.0 r.1
  unfolding negotiate_ctrl_rx_features
  negotiate_ctrl_rx_features-Negotiated polls h =
      negotiate-Negotiated ctrl_rx_guest_features polls h

  -- The same for the features that the command setting the MAC address needs.
  pub negotiate_ctrl_mac_addr_features-Negotiated :
      (polls : ℕ) (h : History)
      → let r = negotiate_ctrl_mac_addr_features polls m delta h in
        Negotiated ctrl_mac_addr_guest_features delta h r.0 r.1
  unfolding negotiate_ctrl_mac_addr_features
  negotiate_ctrl_mac_addr_features-Negotiated polls h =
      negotiate-Negotiated ctrl_mac_addr_guest_features polls h
