-- ===== src/Wire/Decoder/Front.antt =====
-- What `next_frame` of the decoder finds, for a buffer that holds a whole header, and how it reacts
-- to more bytes behind the buffer.
use rtc_asr.Prelude.{
  ℕ, suc, ◌+◌, ◌*◌, ◌≤◌, ◌<◌, ◌≡◌, refl, sym, ap, ◌∙◌, false, Option, none, some, List, ◌∷◌, ◌++◌,
  length, take, drop, length-append, length-take, take-append-drop, take-append, drop-append, ltb,
  if◌then◌else◌, arith, lt→ltb,
}
use rtc_asr.Wire.{
  RawUdsFrameType, RawUdsFrame, Code, unsupported_frame_type, payload_too_large, type_of_value,
  some_type, header_bytes, max_payload_bytes,
}
use rtc_asr.Wire.Decoder.{Found, incomplete, frame, malformed, next_frame, cut, typed}

-- The length that a header's four last bytes declare.
abbrev pub declared : ℕ → ℕ → ℕ → ℕ → ℕ
declared a b c d = a + b * 256 + c * 65536 + d * 16777216

-- A round over the bytes behind the header, once its type and length are known.
abbrev pub behind : Option RawUdsFrameType → ℕ → List ℕ → Found
behind none n r = malformed unsupported_frame_type
behind (some t) n r =
    if ltb max_payload_bytes n
    then malformed payload_too_large
    else if ltb (length r) n
    then incomplete
    else frame (record { frame_type = t; payload = take n r }) (drop n r)

drop_header : (t a b c d n : ℕ) (r : List ℕ) → drop (5 + n) (t ∷ a ∷ b ∷ c ∷ d ∷ r) ≡ drop n r
drop_header t a b c d n r = let e : 5 + n ≡ suc (suc (suc (suc (suc n)))) = omega arith in rw e

cut_lem :
    (ty : RawUdsFrameType) (t a b c d n : ℕ) (r : List ℕ)
    → cut (t ∷ a ∷ b ∷ c ∷ d ∷ r) ty n ≡ behind (some ty) n r
cut_lem ty t a b c d n r = ground (arith, drop_header t a b c d n r)

typed_lem :
    (o : Option RawUdsFrameType) (t a b c d n : ℕ) (r : List ℕ)
    → typed (t ∷ a ∷ b ∷ c ∷ d ∷ r) (some_type o) n ≡ behind o n r
typed_lem none t a b c d n r = refl
typed_lem (some ty) t a b c d n r = cut_lem ty t a b c d n r

long_enough : (n : ℕ) → ltb (suc (suc (suc (suc (suc n))))) 5 ≡ false
long_enough n = ground arith

pub next_frame-header :
    (t a b c d : ℕ) (r : List ℕ)
    → next_frame (t ∷ a ∷ b ∷ c ∷ d ∷ r) ≡ behind (type_of_value t) (declared a b c d) r
unfolding next_frame
next_frame-header t a b c d r =
    rw (long_enough (length r)) (typed_lem (type_of_value t) t a b c d (declared a b c d) r)

-- Below five bytes the loop waits.
pub next_frame-short : (buf : List ℕ) → length buf < 5 → next_frame buf ≡ incomplete
unfolding next_frame
next_frame-short buf h = rw (lt→ltb (length buf) 5 h)

behind-append_frame :
    (o : Option RawUdsFrameType) (n : ℕ) (r more rest : List ℕ) (f : RawUdsFrame)
    → behind o n r ≡ frame f rest
    → behind o n (r ++ more) ≡ frame f (rest ++ more)
behind-append_frame none n r more rest f h = cc
behind-append_frame (some t) n r more rest f h =
    ground (arith, take-append n r more, drop-append n r more, length-append r more)

behind-append_malformed :
    (o : Option RawUdsFrameType) (n : ℕ) (r more : List ℕ) (c : Code)
    → behind o n r ≡ malformed c
    → behind o n (r ++ more) ≡ malformed c
behind-append_malformed none n r more c h = h
behind-append_malformed (some t) n r more c h = ground arith

behind-frame_fields :
    (o : Option RawUdsFrameType) (n : ℕ) (r rest : List ℕ) (f : RawUdsFrame)
    → behind o n r ≡ frame f rest
    → (o ≡ some f.frame_type)
      × (r ≡ f.payload ++ rest)
      × (length f.payload ≡ n)
      × (n ≤ max_payload_bytes)
behind-frame_fields none n r rest f h = cc
behind-frame_fields (some t) n r rest f h = ground (arith, take-append-drop n r, length-take n r)

behind-incomplete_bound :
    (o : Option RawUdsFrameType) (n : ℕ) (r : List ℕ)
    → behind o n r ≡ incomplete
    → length r < max_payload_bytes
behind-incomplete_bound none n r h = cc
behind-incomplete_bound (some t) n r h = ground arith

-- More bytes behind a complete frame change what is left, and not the frame.
pub next_frame-append_frame :
    (buf more rest : List ℕ) (f : RawUdsFrame)
    → next_frame buf ≡ frame f rest
    → next_frame (buf ++ more) ≡ frame f (rest ++ more)
next_frame-append_frame (t ∷ a ∷ b ∷ c ∷ d ∷ r) more rest f h =
    next_frame-header t a b c d (r ++ more)
    ∙ behind-append_frame (type_of_value t) (declared a b c d) r more rest f
        (sym (next_frame-header t a b c d r) ∙ h)
next_frame-append_frame bs more rest f h = cc (next_frame-short bs (omega arith))

-- Nor do they repair a malformed header.
pub next_frame-append_malformed :
    (buf more : List ℕ) (code : Code)
    → next_frame buf ≡ malformed code
    → next_frame (buf ++ more) ≡ malformed code
next_frame-append_malformed (t ∷ a ∷ b ∷ c ∷ d ∷ r) more code h =
    next_frame-header t a b c d (r ++ more)
    ∙ behind-append_malformed (type_of_value t) (declared a b c d) r more code
        (sym (next_frame-header t a b c d r) ∙ h)
next_frame-append_malformed bs more code h = cc (next_frame-short bs (omega arith))

-- A frame is cut from the front: header, payload, rest.
pub next_frame-frame_shrinks :
    (buf rest : List ℕ) (f : RawUdsFrame)
    → next_frame buf ≡ frame f rest
    → length buf ≡ 5 + length f.payload + length rest
next_frame-frame_shrinks (t ∷ a ∷ b ∷ c ∷ d ∷ r) rest f h =
    let cut_parts =
      behind-frame_fields (type_of_value t) (declared a b c d) r rest f
        (sym (next_frame-header t a b c d r) ∙ h) in
    omega (arith, ap length cut_parts.1, length-append f.payload rest)
next_frame-frame_shrinks bs rest f h = cc (next_frame-short bs (omega arith))

-- What stays incomplete is shorter than the largest frame.
pub next_frame-incomplete_bound :
    (buf : List ℕ) → next_frame buf ≡ incomplete → length buf < header_bytes + max_payload_bytes
next_frame-incomplete_bound (t ∷ a ∷ b ∷ c ∷ d ∷ r) h =
    let bound =
      behind-incomplete_bound (type_of_value t) (declared a b c d) r
        (sym (next_frame-header t a b c d r) ∙ h) in
    omega arith
next_frame-incomplete_bound bs h = omega arith
