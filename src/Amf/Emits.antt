-- ===== src/Amf/Emits.antt =====
-- What a row of encoder calls of rtmp_amf.c puts into the caller's buffer.
use rtmpcamera.Prelude.{
  ℕ, ◌+◌, ◌≤◌, ◌≡◌, refl, sym, ap, ◌∙◌, List, [], ◌∷◌, ◌++◌, append-nil, append_assoc, length,
  length-append, length-drop, drop, drop-drop, Option, none, some, arith,
}
use rtmpcamera.Amf.{Bytes, Value}
use rtmpcamera.Amf.Encode.{Out, emit, emit_all}
use rtmpcamera.Amf.Wire.{wire}

-- The bytes of several values one after another.
unfoldable pub wire_all : List Value → Bytes
wire_all [] = []
wire_all (v ∷ vs) = wire v ++ wire_all vs

-- The command was written within the buffer: `bytes` and nothing else, over the memory's front.
abbrev pub Wrote : Bytes → Bytes → Option Out → Type 0
Wrote bytes memory none = ⊥
Wrote bytes memory (some o) = (o.written ≡ bytes) × (o.memory ≡ drop (length bytes) memory)

-- The calls write the encodings of the values.
abbrev pub Encodes : List (Option Bytes) → List Value → Type 0
Encodes [] [] = Unit {0}
Encodes (call ∷ calls) (v ∷ vs) = (call ≡ some (wire v)) × Encodes calls vs
Encodes _ _ = ⊥

-- `drop-drop` as a rule for simp.
pub drop-drop_add : (m n : ℕ) (xs : Bytes) → drop n (drop m xs) ≡ drop (m + n) xs
drop-drop_add m n xs = drop-drop m n (m + n) xs refl

pub emit-room :
    (bs : Bytes) (o : Out)
    → length bs ≤ length o.memory
    → emit (some bs) o
      ≡ some (record {
        written = o.written ++ bs;
        memory = drop (length bs) o.memory;
        tmp_size = length bs;
      })
unfolding emit
emit-room bs o h = ground arith

pub emit_all-wire :
    (calls : List (Option Bytes)) (vs : List Value) (memory : Bytes) (o : Out)
    → Encodes calls vs
    → o.memory ≡ drop (length o.written) memory
    → length o.written + length (wire_all vs) ≤ length memory
    → Wrote (o.written ++ wire_all vs) memory (emit_all calls o)
unfolding emit_all wire_all
emit_all-wire [] [] memory o e m k =
    (sym (append-nil o.written), m ∙ ap (λ b. drop (length b) memory) (sym (append-nil o.written)))
emit_all-wire [] (v ∷ vs) memory o e m k = absurd e
emit_all-wire (call ∷ calls) [] memory o e m k = absurd e
emit_all-wire (call ∷ calls) (v ∷ vs) memory o e m k =
    let sizes : length (wire v ++ wire_all vs) ≡ length (wire v) + length (wire_all vs) =
      length-append (wire v) (wire_all vs) in
    let room : length (wire v) ≤ length o.memory =
      omega (arith, ap length m, length-drop (length o.written) memory, sizes) in
    rw (e.0, emit-room (wire v) o room, ← append_assoc)
      (emit_all-wire calls vs memory
        (record {
          written = o.written ++ wire v;
          memory = drop (length (wire v)) o.memory;
          tmp_size = length (wire v);
        })
        e.1
        (ap (drop (length (wire v))) m
          ∙ (drop-drop_add (length o.written) (length (wire v)) memory
              ∙ ap (λ j. drop j memory) (sym (length-append o.written (wire v)))))
        (omega (arith, sizes, length-append o.written (wire v))))
