-- ===== src/Chunk/Fields.antt =====
-- The chunk headers of rtmp_chunk.c: what rtmp_chunk_write_header stores is what
-- rtmp_chunk_read_basic_header and rtmp_chunk_read_header read.
use rtmpcamera.Prelude.{
  ℕ, zero, suc, ◌+◌, ◌*◌, ◌/◌, ◌%◌, ◌^◌, ◌≤◌, ◌<◌, ◌≡◌, refl, sym, Bool, true, Option, none, some,
  [], ◌∷◌, ◌++◌, length, take, drop, take_append, arith,
}
use rtmpcamera.Chunk.{Bytes, Header, write_int24, read_int24, write_basic_header, read_basic_header}
use rtmpcamera.Chunk.Write.{store, message_header, write_header}
use rtmpcamera.Chunk.Read.{read_header, header_size}

pub store-room :
    (pos : ℕ) (bs buf : Bytes)
    → pos + length bs ≤ length buf
    → store pos bs buf ≡ some (take pos buf ++ (bs ++ drop (length bs) (drop pos buf)))
unfolding store
store-room zero [] buf h = refl
store-room zero (b ∷ bs) [] h = absurd (omega arith)
store-room zero (b ∷ bs) (x ∷ buf) h = rw (store-room zero bs buf (omega arith)) refl
store-room (suc pos) [] [] h = absurd (omega arith)
store-room (suc pos) (b ∷ bs) [] h = absurd (omega arith)
store-room (suc pos) bs (x ∷ buf) h = rw (store-room pos bs buf (omega arith)) refl

int24_inverse : (n : ℕ) (rest : Bytes) → n < 2 ^ 24 → read_int24 (write_int24 n ++ rest) ≡ n
unfolding read_int24 write_int24
int24_inverse n rest h = omega arith

-- The fields of a header fit the format.
abbrev pub IsWire : Header → Type 0
IsWire header =
    (header.timestamp < 2 ^ 24)
    × (header.message_length < 2 ^ 24)
    × (header.message_type < 256)
    × (header.message_stream_id < 2 ^ 32)

-- The basic header round trip.
pub basic_inverse :
    (fmt csid : ℕ) (rest : Bytes)
    → fmt < 4
    → 2 ≤ csid
    → csid < 65600
    → read_basic_header (write_basic_header fmt csid ++ rest) ≡ some (fmt, csid)
unfolding read_basic_header write_basic_header
basic_inverse fmt csid rest h k l = ground arith

-- The header that rtmp_chunk_read_header fills in, from the one that was sent and the contents
-- before: a shorter type leaves fields alone.
abbrev pub merged : (sent old : Header) → (type : ℕ) → Header
merged sent old zero = sent
merged sent old (suc zero) = record sent { message_stream_id = old.message_stream_id }
merged sent old (suc (suc zero)) = record old { timestamp = sent.timestamp }
merged sent old (suc (suc (suc n))) = old

pub length-message_header :
    (header : Header) (type : ℕ) → type < 4 → length (message_header header type) ≡ header_size type
unfolding message_header header_size write_int24
length-message_header header zero h = refl
length-message_header header (suc zero) h = refl
length-message_header header (suc (suc zero)) h = refl
length-message_header header (suc (suc (suc zero))) h = refl
length-message_header header (suc (suc (suc (suc n)))) h = absurd (omega arith)

int24_bytes :
    (n : ℕ) → n < 2 ^ 24 → n / 2 ^ 16 % 256 * 2 ^ 16 + n / 2 ^ 8 % 256 * 2 ^ 8 + n % 256 ≡ n
int24_bytes n h = omega arith

int32_bytes :
    (n : ℕ)
    → n < 2 ^ 32
    → n % 256 + n / 2 ^ 8 % 256 * 2 ^ 8 + n / 2 ^ 16 % 256 * 2 ^ 16 + n / 2 ^ 24 % 256 * 2 ^ 24 ≡ n
int32_bytes n h = omega arith

-- The message header round trip, for the type of the header that was stored.
pub message_inverse :
    (header old : Header) (type : ℕ)
    → type < 3
    → IsWire header
    → read_header (message_header header type) old type ≡ (true, merged header old type)
unfolding read_header message_header read_int24 write_int24
message_inverse header old zero h w =
    rw
      (
        int24_bytes header.timestamp w.0,
        int24_bytes header.message_length w.1,
        int32_bytes header.message_stream_id w.3,
      )
      refl
message_inverse header old (suc zero) h w =
    rw (int24_bytes header.timestamp w.0, int24_bytes header.message_length w.1) refl
message_inverse header old (suc (suc zero)) h w = rw (int24_bytes header.timestamp w.0) refl
message_inverse header old (suc (suc (suc n))) h w = absurd (omega arith)

-- The buffer that rtmp_chunk_write_header returned with reads back as the header.
abbrev pub ReadsBack : (sent old : Header) → (type : ℕ) → Option (Bool × Bytes) → Type 0
ReadsBack sent old type none = ⊥
ReadsBack sent old type (some (result, buf)) =
    (result ≡ true)
    × (read_basic_header buf ≡ some (type, sent.message_stream_id))
    × (read_header (take (header_size type) (drop 1 buf)) old type ≡ (true, merged sent old type))

pub write_header-room :
    (buf : Bytes) (header : Header) (type : ℕ)
    → type < 4
    → header.message_stream_id < 64
    → 12 ≤ length buf
    → write_header buf header type
      ≡ some (
        true,
        (type * 64 + header.message_stream_id) ∷ message_header header type
            ++ drop (length (message_header header type)) (drop 1 buf),
      )
unfolding write_header write_basic_header header_size
write_header-room [] header type h k l = absurd (omega arith)
write_header-room (x ∷ buf) header type h k l =
    let b = type * 64 + header.message_stream_id in
    let size = length-message_header header type h in
    let room : 1 + length (message_header header type) ≤ length (b ∷ buf) =
      rw size (ground arith) in
    ground (
      arith,
      store-room 0 (b ∷ []) (x ∷ buf) (omega arith),
      store-room 1 (message_header header type) (b ∷ buf) room,
    )

-- For a stream id between 2 and 63, a header type below 3 and fields that fit the format,
-- rtmp_chunk_write_header into a buffer of at least 12 bytes stores a basic header that
-- rtmp_chunk_read_basic_header reads as that type and id, followed by a message header that
-- rtmp_chunk_read_header reads as the fields that this type carries.
pub write_header-ReadsBack :
    (header old : Header) (type : ℕ) (buf : Bytes)
    → type < 3
    → IsWire header
    → 2 ≤ header.message_stream_id
    → header.message_stream_id < 64
    → 12 ≤ length buf
    → ReadsBack header old type (write_header buf header type)
unfolding read_basic_header
write_header-ReadsBack header old type buf h w k l m =
    let message = message_header header type in
    let size : header_size type ≡ length message =
      sym (length-message_header header type (omega arith)) in
    rw (write_header-room buf header type (omega arith) l m) (
      refl,
      ground arith,
      rw (size, take_append message (drop (length message) (drop 1 buf)))
          (message_inverse header old type h w),
    )

pub store-full :
    (pos : ℕ) (bs buf : Bytes)
    → 0 < length bs
    → length buf < pos + length bs
    → store pos bs buf ≡ none
unfolding store
store-full zero [] buf k h = absurd (omega arith)
store-full zero (b ∷ bs) [] k h = refl
store-full zero (b ∷ []) (x ∷ buf) k h = absurd (omega arith)
store-full zero (b ∷ c ∷ bs) (x ∷ buf) k h =
    rw (store-full zero (c ∷ bs) buf (omega arith) (omega arith)) refl
store-full (suc pos) bs [] k h = refl
store-full (suc pos) bs (x ∷ buf) k h = rw (store-full pos bs buf k (omega arith)) refl
