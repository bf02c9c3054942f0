-- ===== src/Protocol/Frame/RoundTrip.antt =====
-- Reading what was written, internal/protocol/framing.go.
use pi_ops_agent.Base.{
  ℕ, ◌≤◌, ◌<◌, ◌%◌, ◌^◌, ◌≡◌, ap, ◌∙◌, List, ◌++◌, arith, length, length-append, take-append,
  drop-append,
}
use pi_ops_agent.Protocol.Frame.{
  read_frame, write_frame, frame, bytes, max_frame_bytes, put_uint32, uint32_of, read_full, filled,
}
use pi_ops_agent.Protocol.Frame.{read_body}

-- Reading as many bytes as the first part has gives the two parts.
read_full-append : (xs ys : List ℕ) → read_full (length xs) (xs ++ ys) ≡ filled xs ys
unfolding read_full
read_full-append xs ys = ground (arith, length-append xs ys, take-append xs ys, drop-append xs ys)

uint32_of-put_uint32 : (n : ℕ) → n < 2 ^ 32 → uint32_of (put_uint32 n) ≡ n
unfolding uint32_of put_uint32
uint32_of-put_uint32 n h = omega arith

module _ (payload : List ℕ) (h : 0 < length payload) (fits : length payload ≤ max_frame_bytes) where
  write_frame_accepts : write_frame payload ≡ bytes (put_uint32 (length payload) ++ payload)
  unfolding write_frame
  write_frame_accepts =
      let small : length payload % 2 ^ 32 ≡ length payload = omega arith in rw small (ground arith)

  read_body-put_uint32 :
      (rest : List ℕ)
      → read_body (filled (put_uint32 (length payload)) (payload ++ rest)) ≡ frame payload rest
  unfolding read_body
  read_body-put_uint32 rest =
      ground
        (arith, uint32_of-put_uint32 (length payload) (omega arith), read_full-append payload rest)

  read_frame-put_uint32 :
      (rest : List ℕ)
      → read_frame ((put_uint32 (length payload) ++ payload) ++ rest) ≡ frame payload rest
  unfolding read_frame put_uint32
  read_frame-put_uint32 rest =
      ap read_body (read_full-append (put_uint32 (length payload)) (payload ++ rest))
      ∙ read_body-put_uint32 rest

write_frame_fits :
    (payload framed : List ℕ)
    → write_frame payload ≡ bytes framed
    → (0 < length payload) × (length payload ≤ max_frame_bytes)
unfolding write_frame
write_frame_fits payload framed h = ground arith

-- What `WriteFrame` writes, `ReadFrame` reads back, and it leaves the bytes behind the frame.
pub read_frame-write_frame :
    (payload rest framed : List ℕ)
    → write_frame payload ≡ bytes framed
    → read_frame (framed ++ rest) ≡ frame payload rest
read_frame-write_frame payload rest framed h =
    let (positive, fits) = write_frame_fits payload framed h in
    let e : put_uint32 (length payload) ++ payload ≡ framed =
      cc (h, write_frame_accepts payload positive fits) in
    rw (← e) (read_frame-put_uint32 payload positive fits rest)
