-- ===== src/Epoch/Tests.antt =====
-- Generations 5, 7 and again 5 of one device.
use csqtt_android.Shared.{ℕ, ◌≡◌, List, [], ◌∷◌, arith}
use csqtt_android.Epoch.{new, admit, stale}
use csqtt_android.Epoch.Order.{Client, admit_all, older_refused}

abbrev client : ℕ → List ℕ → Client
client generation salt = record { generation = generation; salt = salt }

older_refused_example :
    let later = admit_all (admit new 6 (2 ∷ [])).0 (client 7 (3 ∷ []) ∷ []) in
    admit later 5 (1 ∷ []) ≡ (later, stale)
older_refused_example =
    older_refused new (client 6 (2 ∷ [])) (client 5 (1 ∷ [])) (client 7 (3 ∷ []) ∷ []) (omega arith)
