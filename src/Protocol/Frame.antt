-- ===== src/Protocol/Frame.antt =====
-- internal/protocol/framing.go: a frame is a big-endian length in four bytes and its payload.
pub mod RoundTrip
use pi_ops_agent.Base.{ℕ, ◌+◌, ◌*◌, ◌/◌, ◌%◌, ◌^◌, ◌||◌, List, [], ◌∷◌, ◌++◌, Option, none, some}
use pi_ops_agent.Base.{ltb, ◌=?◌, length, take, drop, if◌then◌else◌}

abbrev pub max_frame_bytes : ℕ
max_frame_bytes = 256 * 1024

-- `io.EOF` before the first byte, `io.ErrUnexpectedEOF` after it, or `ErrInvalidFrame`.
pub data FrameError : Type 0 where
  end_of_file unexpected_end : FrameError
  invalid_frame : ℕ → FrameError

pub data Read : Type 0 where
  frame : List ℕ → List ℕ → Read
  failure : FrameError → Read

pub data Written : Type 0 where
  bytes : List ℕ → Written
  refused : FrameError → Written

-- `io.ReadFull` into `n` bytes, from what the stream still holds
pub data Filled : Type 0 where
  filled : List ℕ → List ℕ → Filled
  short : FrameError → Filled

abbrev short_read : List ℕ → FrameError
short_read [] = end_of_file
short_read (b ∷ bs) = unexpected_end

unfoldable pub read_full : ℕ → List ℕ → Filled
read_full n stream =
    if ltb (length stream) n
    then short (short_read stream)
    else filled (take n stream) (drop n stream)

-- `binary.BigEndian`
unfoldable pub uint32_of : List ℕ → ℕ
uint32_of (a ∷ b ∷ c ∷ d ∷ []) = ((a * 256 + b) * 256 + c) * 256 + d
uint32_of _ = 0

unfoldable pub put_uint32 : ℕ → List ℕ
put_uint32 n = (n / 2 ^ 24 % 256) ∷ (n / 2 ^ 16 % 256) ∷ (n / 2 ^ 8 % 256) ∷ (n % 256) ∷ []

read_payload : Filled → Read
read_payload (filled payload rest) = frame payload rest
read_payload (short e) = failure e

read_body : Filled → Read
unfolding read_payload read_full uint32_of
read_body (short e) = failure e
read_body (filled header stream) =
    let n = uint32_of header in
    if n =? 0 || ltb max_frame_bytes n
    then failure (invalid_frame n)
    else read_payload (read_full n stream)

-- The frame's payload and what the stream holds after it.
unfoldable pub read_frame : List ℕ → Read
unfolding read_body
read_frame stream = read_body (read_full 4 stream)

-- The bytes that `WriteFrame` gives to a writer that does not fail; the length is cut to 32 bits.
unfoldable pub write_frame : List ℕ → Written
unfolding put_uint32
write_frame payload =
    if length payload =? 0 || ltb max_frame_bytes (length payload)
    then refused (invalid_frame (length payload))
    else bytes (put_uint32 (length payload % 2 ^ 32) ++ payload)
