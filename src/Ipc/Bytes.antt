-- ===== src/Ipc/Bytes.antt =====
-- The little-endian words of the packed structs of src/common/consts.hpp, and the loops that read
-- a number of bytes from a stream: `read_all` of ipc_client.cpp and `xxread` of module.cpp.
pub mod Reading
pub mod Stream
use zygisk_magisk_module.Prelude.{
  ℕ, zero, suc, ℤ, pos, minus_one, ◌+◌, ◌-◌, ◌*◌, ◌/◌, ◌%◌, ◌^◌, ◌<◌, ◌≡◌, refl, Option, none, some,
  List, [], ◌∷◌, ◌++◌, arith, length, take, drop, get_or, if◌then◌else◌, ◌==◌,
}
use mathlib.Core.Option
use zygisk_magisk_module.World.{Call, read, ReadAnswer, Env, World}

-- The bytes of a 32-bit pattern.
unfoldable pub le32 : ℕ → List ℕ
le32 w = w % 256 ∷ w / 256 % 256 ∷ w / 65536 % 256 ∷ w / 16777216 % 256 ∷ []

-- The 32-bit pattern at the front of a buffer.
unfoldable pub of_le32 : List ℕ → ℕ
of_le32 bs = get_or bs 0 0 + get_or bs 1 0 * 256 + get_or bs 2 0 * 65536 + get_or bs 3 0 * 16777216

-- `zygisk_response_header_t`, as bit patterns.
pub record Response : Type 0 where
  pub code : ℕ
  pub uid : ℕ
  pub flags : ℕ

unfoldable pub encode_response : Response → List ℕ
unfolding le32
encode_response r = le32 r.code ++ le32 r.uid ++ le32 r.flags

unfoldable pub decode_response : List ℕ → Response
unfolding of_le32
decode_response bs = record {
  code = of_le32 bs;
  uid = of_le32 (drop 4 bs);
  flags = of_le32 (drop 8 bs);
}

-- `zygisk_request_header_t`: opcode, then pid.
unfoldable pub encode_request : ℕ → ℕ → List ℕ
unfolding le32
encode_request opcode pid = le32 opcode ++ le32 pid

pub record IsWords (r : Response) : Type 0 where
  pub code_fits : r.code < 2 ^ 32
  pub uid_fits : r.uid < 2 ^ 32
  pub flags_fit : r.flags < 2 ^ 32

pub of_le32-le32 : (w : ℕ) (rest : List ℕ) → w < 2 ^ 32 → of_le32 (le32 w ++ rest) ≡ w
unfolding of_le32 le32
of_le32-le32 w rest h = omega arith

-- A response whose fields are 32-bit words is read back from its bytes, whatever follows them.
pub decode-encode_response :
    (r : Response) (rest : List ℕ) → IsWords r → decode_response (encode_response r ++ rest) ≡ r
unfolding decode_response encode_response
decode-encode_response r rest v = ground arith

abbrev pub emit : Call → World → World
emit c w = record w { trace = c ∷ w.trace }

-- The attempts at a `read` that a signal interrupts.
retries : ℕ → Call → World → World
retries zero c w = w
retries (suc n) c w = retries n c (emit c w)

-- What one `read` puts in the buffer, at most what is asked for; none if it fails.
chunk_of : ReadAnswer → ℕ → Option (List ℕ)
chunk_of answer left = Option.map (take left) answer.bytes

-- One round of `xxread` after its `read`: an error, the end of the stream, or a chunk with which
-- the loop goes on.
xxread_round : Option (List ℕ) → List ℕ → World → (List ℕ → ℤ × List ℕ × World) → ℤ × List ℕ × World
xxread_round none got w next = (minus_one, got, w)
xxread_round (some []) got w next = (pos (length got), got, w)
xxread_round (some (b ∷ bs)) got w next = next (b ∷ bs)

-- The loop of `xxread`, with the bytes still wanted and those that are in the buffer. The result
-- is what the function returns and the bytes it has put in the buffer. A round that goes on has
-- got a byte, so that fuel for each wanted byte is enough.
xxread_loop : Env → ℕ → ℤ → ℕ → List ℕ → World → ℤ × List ℕ × World
xxread_loop env zero fd left got w = (pos (length got), got, w)
xxread_loop env (suc fuel) fd left got w =
    let answer = env.reading w.trace fd left in
    let w' = emit (read fd left) (retries answer.interrupted (read fd left) w) in
    let round =
      xxread_round (chunk_of answer left) got w'
        (λ bs. xxread_loop env fuel fd (left - length bs) (got ++ bs) w') in
    if left == 0 then (pos (length got), got, w) else round

unfoldable pub xxread : Env → ℤ → ℕ → World → ℤ × List ℕ × World
unfolding xxread_loop xxread_round retries chunk_of
xxread env fd count w = xxread_loop env count fd count [] w

-- The bytes of a `read` that gives any; an interruption is a failure here.
uninterrupted : ReadAnswer → ℕ → Option (List ℕ)
unfolding chunk_of
uninterrupted answer left = if answer.interrupted == 0 then chunk_of answer left else none

read_all_round :
    Option (List ℕ) → World → (List ℕ → Option (List ℕ) × World) → Option (List ℕ) × World
read_all_round none w next = (none, w)
read_all_round (some []) w next = (none, w)
read_all_round (some (b ∷ bs)) w next = next (b ∷ bs)

-- The loop of `read_all`: any result but a positive one is a failure.
read_all_loop : Env → ℕ → ℤ → ℕ → List ℕ → World → Option (List ℕ) × World
read_all_loop env zero fd left got w = (some got, w)
read_all_loop env (suc fuel) fd left got w =
    let w' = emit (read fd left) w in
    let round =
      read_all_round (uninterrupted (env.reading w.trace fd left) left) w'
        (λ bs. read_all_loop env fuel fd (left - length bs) (got ++ bs) w') in
    if left == 0 then (some got, w) else round

unfoldable pub read_all : Env → ℤ → ℕ → World → Option (List ℕ) × World
unfolding read_all_loop read_all_round uninterrupted
read_all env fd count w = read_all_loop env count fd count [] w
