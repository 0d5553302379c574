-- ===== src/Chunk/Wire.antt =====
-- The chunk format, as the RTMP specification defines it: the reference for rtmp_chunk.c. The
-- chunks of a message on chunk stream `csid`, with the header types of the program.
use rtmpcamera.Prelude.{ℕ, ◌≤◌, ◌<◌, ◌≡◌, List, [], ◌∷◌, ◌++◌, length}
use rtmpcamera.Chunk.{Bytes}

-- The payload `contents` cut in pieces of `size` bytes, the last one shorter or equal, with the
-- one-byte header `tag` between them.
pub data Split (size tag : ℕ) : Bytes → List Bytes → Type 0 where
  nothing : Split size tag [] []
  last :
      {piece : Bytes} → 0 < length piece → length piece ≤ size → Split size tag piece (piece ∷ [])
  next :
      {piece behind : Bytes} {entries : List Bytes}
      → length piece ≡ size
      → 0 < length behind
      → Split size tag behind entries
      → Split size tag (piece ++ behind) (piece ∷ (tag ∷ []) ∷ entries)
