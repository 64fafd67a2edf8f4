-- ===== src/Wire/RoundTrip.antt =====
-- Encoding and decoding of one Raw UDS frame are inverse to each other.
use rtc_asr.Prelude.{
  ℕ, ◌/◌, ◌%◌, ◌^◌, ◌==◌, if◌then◌else◌, ◌≤◌, ◌<◌, ◌≡◌, refl, ap, ◌∙◌, sym, Option, none, some,
  List, [], ◌∷◌, ◌++◌, arith, length, All, lt→ltb, take, drop, length-append, ltb, Result, ok, err,
}
use rtc_asr.Wire.Decoder.Front.{declared, behind, next_frame-header}
use rtc_asr.Wire.Decoder.{frame, next_frame}
use rtc_asr.Wire.{
  Code, unsupported_frame_type, payload_too_large, frame_length_mismatch, incomplete_frame,
  RawUdsFrameType, RawUdsFrame, type_value, type_of_value, member, bytes, pack_header,
  encode_raw_uds_frame, decode_raw_uds_frame, max_payload_bytes, json_control,
}

abbrev pub IsByte : ℕ → Type 0
IsByte b = b < 256

-- A frame whose payload the header can declare and the limit allows.
pub record IsFrame (f : RawUdsFrame) : Type 0 where
  pub within : length f.payload ≤ max_payload_bytes

pub type_of_value-type_value : (t : RawUdsFrameType) → type_of_value (type_value t) ≡ some t
unfolding type_of_value
type_of_value-type_value json_control = refl
type_of_value-type_value t = refl

pub type_value_of : (n : ℕ) (t : RawUdsFrameType) → type_of_value n ≡ some t → type_value t ≡ n
unfolding type_of_value
type_value_of n t h = ground arith

-- The four length bytes stand for the length, below 2 ^ 32.
length_bytes :
    (n : ℕ)
    → n < 2 ^ 32
    → declared (n % 256) (n / 256 % 256) (n / 65536 % 256) (n / 16777216 % 256) ≡ n
length_bytes n h = omega arith

bytes_of_declared :
    (a b c d : ℕ)
    → IsByte a
    → IsByte b
    → IsByte c
    → IsByte d
    → let n = declared a b c d in
      (n % 256 ≡ a) × (n / 256 % 256 ≡ b) × (n / 65536 % 256 ≡ c) × (n / 16777216 % 256 ≡ d)
bytes_of_declared a b c d ha hb hc hd = (omega arith, omega arith, omega arith, omega arith)

abbrev pub decoded : Option RawUdsFrameType → ℕ → List ℕ → Result Code RawUdsFrame
decoded none n r = err unsupported_frame_type
decoded (some t) n r =
    if ltb max_payload_bytes n
    then err payload_too_large
    else if length r == n
    then ok (record { frame_type = t; payload = r })
    else err frame_length_mismatch

pub decode-header :
    (t a b c d : ℕ) (r : List ℕ)
    → decode_raw_uds_frame (bytes (t ∷ a ∷ b ∷ c ∷ d ∷ r))
      ≡ decoded (type_of_value t) (declared a b c d) r
unfolding decode_raw_uds_frame
decode-header t a b c d r = ground arith

abbrev pub framed : RawUdsFrame → List ℕ
framed f = pack_header (type_value f.frame_type) (length f.payload) ++ f.payload

pub encode_within :
    (f : RawUdsFrame)
    → IsFrame f
    → encode_raw_uds_frame (member f.frame_type) (bytes f.payload) ≡ ok (framed f)
unfolding encode_raw_uds_frame
encode_within f h = ground arith

pub decode-framed : (f : RawUdsFrame) → IsFrame f → decode_raw_uds_frame (bytes (framed f)) ≡ ok f
unfolding pack_header
decode-framed f h =
    let n : ℕ = length f.payload in
    decode-header (type_value f.frame_type) (n % 256) (n / 256 % 256) (n / 65536 % 256)
      (n / 16777216 % 256) f.payload
    ∙ rw (length_bytes n (omega arith), type_of_value-type_value f.frame_type) (ground arith)

decoded-fields :
    (o : Option RawUdsFrameType) (n : ℕ) (r : List ℕ) (f : RawUdsFrame)
    → decoded o n r ≡ ok f
    → (o ≡ some f.frame_type) × (f.payload ≡ r) × (length r ≡ n) × (n ≤ max_payload_bytes)
decoded-fields none n r f h = cc
decoded-fields (some t) n r f h = ground arith

framed-header :
    (t a b c d : ℕ) (r : List ℕ) (f : RawUdsFrame)
    → IsByte a
    → IsByte b
    → IsByte c
    → IsByte d
    → decoded (type_of_value t) (declared a b c d) r ≡ ok f
    → (framed f ≡ t ∷ a ∷ b ∷ c ∷ d ∷ r) × IsFrame f
unfolding pack_header
framed-header t a b c d r f ha hb hc hd h =
    let parts = decoded-fields (type_of_value t) (declared a b c d) r f h in
    ground (arith, bytes_of_declared a b c d, type_value_of t f.frame_type)

decode-short : (b : List ℕ) → length b < 5 → decode_raw_uds_frame (bytes b) ≡ err incomplete_frame
unfolding decode_raw_uds_frame
decode-short b h = rw (lt→ltb (length b) 5 h)

framed-of_decoded :
    (input : List ℕ) (f : RawUdsFrame)
    → All IsByte input
    → decode_raw_uds_frame (bytes input) ≡ ok f
    → (framed f ≡ input) × IsFrame f
framed-of_decoded (t ∷ a ∷ b ∷ c ∷ d ∷ r) f h e =
    framed-header t a b c d r f h.1.0 h.1.1.0 h.1.1.1.0 h.1.1.1.1.0
      (sym (decode-header t a b c d r) ∙ e)
framed-of_decoded bs f h e = cc (decode-short bs (omega arith))

take-append_self : (xs ys : List ℕ) → take (length xs) (xs ++ ys) ≡ xs
take-append_self [] ys = refl
take-append_self (x ∷ xs) ys = ap (◌∷◌ x) (take-append_self xs ys)

drop-append_self : (xs ys : List ℕ) → drop (length xs) (xs ++ ys) ≡ ys
drop-append_self [] ys = refl
drop-append_self (x ∷ xs) ys = drop-append_self xs ys

behind-whole :
    (f : RawUdsFrame) (more : List ℕ)
    → IsFrame f
    → behind (some f.frame_type) (length f.payload) (f.payload ++ more) ≡ frame f more
behind-whole f more h = ground (
  arith,
  take-append_self f.payload more,
  drop-append_self f.payload more,
  length-append f.payload more,
)

-- The incremental decoder finds an encoded frame at the front of its buffer.
pub next_frame-framed :
    (f : RawUdsFrame) (more : List ℕ) → IsFrame f → next_frame (framed f ++ more) ≡ frame f more
unfolding pack_header
next_frame-framed f more h =
    let n : ℕ = length f.payload in
    next_frame-header (type_value f.frame_type) (n % 256) (n / 256 % 256) (n / 65536 % 256)
      (n / 16777216 % 256) (f.payload ++ more)
    ∙ rw (length_bytes n (omega arith), type_of_value-type_value f.frame_type)
        (behind-whole f more h)

-- `decode_raw_uds_frame` undoes `encode_raw_uds_frame`: for every frame whose payload is within the
-- limit, encoding succeeds, and decoding what it returns gives the frame back.
pub decode-encode :
    (f : RawUdsFrame)
    → IsFrame f
    → (encode_raw_uds_frame (member f.frame_type) (bytes f.payload) ≡ ok (framed f))
      × (decode_raw_uds_frame (bytes (framed f)) ≡ ok f)
decode-encode f h = (encode_within f h, decode-framed f h)

-- The other way round: whatever byte string `decode_raw_uds_frame` accepts is the one encoding of the
-- frame that it returns.
pub encode-decode :
    (input : List ℕ) (f : RawUdsFrame)
    → All IsByte input
    → decode_raw_uds_frame (bytes input) ≡ ok f
    → encode_raw_uds_frame (member f.frame_type) (bytes f.payload) ≡ ok input
encode-decode input f h e =
    let (same, within) = framed-of_decoded input f h e in encode_within f within ∙ ap ok same

short_enough :
    (t : RawUdsFrameType) (payload b : List ℕ)
    → encode_raw_uds_frame (member t) (bytes payload) ≡ ok b
    → length payload ≤ max_payload_bytes
unfolding encode_raw_uds_frame
short_enough t payload b e = ground arith

-- Whatever has been encoded is decoded as the frame that it was.
pub encode_returned :
    (t : RawUdsFrameType) (payload b : List ℕ)
    → encode_raw_uds_frame (member t) (bytes payload) ≡ ok b
    → decode_raw_uds_frame (bytes b) ≡ ok (record { frame_type = t; payload = payload })
encode_returned t payload b e =
    let f : RawUdsFrame = record { frame_type = t; payload = payload } in
    let h : IsFrame f = record { within = short_enough t payload b e } in
    let same : framed f ≡ b = cc (encode_within f h, e) in rw same at (decode-framed f h)
