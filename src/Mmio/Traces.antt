-- ===== src/Mmio/Traces.antt =====
-- What a history of accesses says about one register.
use advcpp.Prelude.{ℕ, List, [], ◌∷◌, ◌==◌, if◌then◌else◌}
use advcpp.Mmio.{History, loaded, stored}

-- The values that were stored at an offset, newest first.
abbrev pub stores_at : ℕ → History → List ℕ
stores_at o [] = []
stores_at o (loaded w p v ∷ h) = stores_at o h
stores_at o (stored w p v ∷ h) = if p == o then v ∷ stores_at o h else stores_at o h

-- The values that were loaded from an offset, newest first.
abbrev pub loads_at : ℕ → History → List ℕ
loads_at o [] = []
loads_at o (loaded w p v ∷ h) = if p == o then v ∷ loads_at o h else loads_at o h
loads_at o (stored w p v ∷ h) = loads_at o h
