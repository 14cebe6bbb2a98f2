-- ===== src/Fec/Frames.antt =====
-- Which stream frames each end may send twice (shared/selective_fec.rs).
use csqtt_android.Shared.{ascii, ℕ, ◌≡◌, true, ◌&&◌, List, ◌∷◌, ◌++◌, arith, starts_with, ◌⊎◌, ◌↔◌}
use csqtt_android.Fec.{
  is_proxy_frame, is_client_duplicable_frame, is_server_duplicable_frame, should_duplicate,
}

-- Both ends may repeat a frame exactly if it is a DATA frame.
pub both_ends_repeat_data :
    (packet : List ℕ)
    → is_proxy_frame packet
      ≡ (is_client_duplicable_frame packet && is_server_duplicable_frame packet)
unfolding is_proxy_frame is_client_duplicable_frame is_server_duplicable_frame
both_ends_repeat_data packet = ground arith

-- On a well-formed frame the kind alone decides: the client repeats OPEN (1), DATA (4) and CLOSE
-- (5), the server OPEN_OK (2), OPEN_ERR (3) and DATA, and every DATA frame is duplicated.
pub frame_kinds :
    (kind : ℕ) (rest : List ℕ)
    → let packet = ascii "CSQPX2" ++ (kind ∷ rest) in
      ((is_client_duplicable_frame packet ≡ true) ↔ ((kind ≡ 1) ⊎ ((kind ≡ 4) ⊎ (kind ≡ 5))))
      × ((is_server_duplicable_frame packet ≡ true) ↔ ((kind ≡ 2) ⊎ ((kind ≡ 3) ⊎ (kind ≡ 4))))
      × (kind ≡ 4 → should_duplicate packet ≡ true)
unfolding is_client_duplicable_frame is_server_duplicable_frame should_duplicate is_proxy_frame
    starts_with
frame_kinds kind rest = (
  (λ h. grind arith, λ h. ground arith),
  (λ h. grind arith, λ h. ground arith),
  λ h. ground arith,
)
