-- ===== src/Protocol/Examples.antt =====
-- Runs of the protocol's functions, and its theorem at a concrete payload.
use pi_ops_agent.Base.{◌≡◌, refl, [], ◌∷◌, ◌++◌}
use pi_ops_agent.Protocol.Frame.{
  frame, failure, bytes, refused, end_of_file, unexpected_end, invalid_frame, read_frame,
  write_frame,
}
use pi_ops_agent.Protocol.Frame.RoundTrip.{read_frame-write_frame}

hello : write_frame (104 ∷ 105 ∷ []) ≡ bytes (0 ∷ 0 ∷ 0 ∷ 2 ∷ 104 ∷ 105 ∷ [])
unfolding write_frame
hello = refl

read_frame-write_frame_example :
    read_frame ((0 ∷ 0 ∷ 0 ∷ 2 ∷ 104 ∷ 105 ∷ []) ++ 9 ∷ []) ≡ frame (104 ∷ 105 ∷ []) (9 ∷ [])
unfolding write_frame
read_frame-write_frame_example =
    read_frame-write_frame (104 ∷ 105 ∷ []) (9 ∷ []) (0 ∷ 0 ∷ 0 ∷ 2 ∷ 104 ∷ 105 ∷ []) refl

refusals :
    (write_frame [] ≡ refused (invalid_frame 0))
    × (read_frame [] ≡ failure end_of_file)
    × (read_frame (0 ∷ []) ≡ failure unexpected_end)
    × (read_frame (0 ∷ 4 ∷ 0 ∷ 1 ∷ []) ≡ failure (invalid_frame 262145))
    × (read_frame (0 ∷ 0 ∷ 0 ∷ 2 ∷ 104 ∷ []) ≡ failure unexpected_end)
unfolding write_frame read_frame
refusals = (refl, refl, refl, refl, refl)
