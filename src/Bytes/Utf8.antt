-- ===== src/Bytes/Utf8.antt =====
-- `str.encode("utf-8")` and `bytes.decode("utf-8")`, strict: a lone surrogate is not encoded, and a
-- malformed, overlong or truncated sequence is not decoded.
use chess_pyspec.Base.{
  ℕ, zero, suc, ◌+◌, ◌-◌, ◌*◌, ◌/◌, ◌%◌, ◌≤◌, ◌<◌, ◌≡◌, refl, ap, ◌∙◌, subst, Bool, false, ◌&&◌,
  Option, none, some, [], ◌∷◌, ◌++◌, arith, ltb, leb, lt→ltb, le→leb, ◌==◌, if◌then◌else◌, Text,
  Bytes, length, length-append, All,
}
use chess_pyspec.Base.Texts.{Lacks, has_char, Lacks-cons, Lacks-append}
use chess_pyspec.Base.Result.{Result, ok, err, unicode_error, ◌>>=◌, >>=-eq-ok, >>=-ok}

abbrev within : ℕ → ℕ → ℕ → Bool
within lo hi c = leb lo c && leb c hi

encode_char : ℕ → Result Bytes
encode_char c =
    if ltb c 0x80
    then ok (c ∷ [])
    else if ltb c 0x800
    then ok ((0xc0 + c / 64) ∷ (0x80 + c % 64) ∷ [])
    else if within 0xd800 0xdfff c
    then err unicode_error
    else if ltb c 0x10000
    then ok ((0xe0 + c / 4096) ∷ (0x80 + c / 64 % 64) ∷ (0x80 + c % 64) ∷ [])
    else if ltb c 0x110000
    then ok
        ((0xf0 + c / 262144) ∷ (0x80 + c / 4096 % 64) ∷ (0x80 + c / 64 % 64) ∷ (0x80 + c % 64) ∷ [])
    else err unicode_error

unfoldable pub encode : Text → Result Bytes
unfolding encode_char
encode [] = ok []
encode (c ∷ cs) = do b ← encode_char c; bs ← encode cs; ok (b ++ bs)

-- Inside a sequence: the bytes still wanted, the bits read, and the range of the next byte.
record Scan : Type 0 where
  wanted : ℕ
  bits : ℕ
  lo : ℕ
  hi : ℕ

abbrev start : Scan
start = record { wanted = 0; bits = 0; lo = 0; hi = 0 }

abbrev after_lead : ℕ → ℕ → ℕ → ℕ → Result (Option ℕ × Scan)
after_lead wanted bits lo hi = ok (none, record { wanted = wanted; bits = bits; lo = lo; hi = hi })

lead_byte : ℕ → Result (Option ℕ × Scan)
lead_byte b =
    if ltb b 0x80
    then ok (some b, start)
    else if within 0xc2 0xdf b
    then after_lead 1 (b - 0xc0) 0x80 0xbf
    else if within 0xe0 0xef b
    then after_lead 2 (b - 0xe0) (if b == 0xe0 then 0xa0 else 0x80)
        (if b == 0xed then 0x9f else 0xbf)
    else if within 0xf0 0xf4 b
    then after_lead 3 (b - 0xf0) (if b == 0xf0 then 0x90 else 0x80)
        (if b == 0xf4 then 0x8f else 0xbf)
    else err unicode_error

next_byte : ℕ → Scan → ℕ → Result (Option ℕ × Scan)
next_byte zero s b = lead_byte b
next_byte (suc n) s b =
    if within s.lo s.hi b
    then (let bits = s.bits * 64 + (b - 0x80) in
        if n == 0 then ok (some bits, start) else after_lead n bits 0x80 0xbf)
    else err unicode_error

abbrev emit : Option ℕ → Text → Text
emit none t = t
emit (some c) t = c ∷ t

decode_from : Scan → Bytes → Result Text
decode_from s [] = if s.wanted == 0 then ok [] else err unicode_error
decode_from s (b ∷ bs) = do
  (out, s') ← next_byte s.wanted s b
  rest ← decode_from s' bs
  ok (emit out rest)

unfoldable pub decode : Bytes → Result Text
unfolding decode_from next_byte lead_byte
decode = decode_from start

-- A character in front of the rest.
abbrev then_text : ℕ → Result Text → Result Text
then_text c r = r >>= λ t. ok (c ∷ t)

suc_is_positive : (n : ℕ) → (suc n == 0) ≡ false
suc_is_positive n = ground arith

-- One step of the scan, for each place in a sequence.
module _ (rest : Bytes) where
  scan_ascii :
      (c : ℕ) → c < 0x80 → decode_from start (c ∷ rest) ≡ then_text c (decode_from start rest)
  unfolding decode_from next_byte lead_byte
  scan_ascii c h = rw (lt→ltb c 0x80 h)

  scan_last :
      (bits b lo hi : ℕ)
      → lo ≤ b
      → b ≤ hi
      → decode_from (record { wanted = 1; bits = bits; lo = lo; hi = hi }) (b ∷ rest)
        ≡ then_text (bits * 64 + (b - 0x80)) (decode_from start rest)
  unfolding decode_from next_byte
  scan_last bits b lo hi p q = rw (le→leb lo b p, le→leb b hi q)

  scan_more :
      (n bits b lo hi : ℕ)
      → lo ≤ b
      → b ≤ hi
      → decode_from (record { wanted = suc (suc n); bits = bits; lo = lo; hi = hi }) (b ∷ rest)
        ≡ decode_from
            (record { wanted = suc n; bits = bits * 64 + (b - 0x80); lo = 0x80; hi = 0xbf })
            rest
  unfolding decode_from next_byte
  scan_more n bits b lo hi p q =
      rw (le→leb lo b p, le→leb b hi q)
        (rw (suc_is_positive n) (
          >>=-ok (
            decode_from
              (record { wanted = suc n; bits = bits * 64 + (b - 0x80); lo = 0x80; hi = 0xbf })
              rest)))

  scan_lead :
      (b : ℕ) (s : Scan)
      → lead_byte b ≡ ok (none, s)
      → decode_from start (b ∷ rest) ≡ decode_from s rest
  unfolding decode_from next_byte
  scan_lead b s h = rw h (>>=-ok (decode_from s rest))

lead_two : (bits : ℕ) → 2 ≤ bits → bits < 32 → lead_byte (0xc0 + bits) ≡ after_lead 1 bits 0x80 0xbf
unfolding lead_byte
lead_two bits p q = ground arith

lead_three :
    (bits : ℕ)
    → bits < 16
    → lead_byte (0xe0 + bits)
      ≡ after_lead 2 bits (if bits == 0 then 0xa0 else 0x80) (if bits == 13 then 0x9f else 0xbf)
unfolding lead_byte
lead_three bits q = ground arith

lead_four :
    (bits : ℕ)
    → bits < 5
    → lead_byte (0xf0 + bits)
      ≡ after_lead 3 bits (if bits == 0 then 0x90 else 0x80) (if bits == 4 then 0x8f else 0xbf)
unfolding lead_byte
lead_four bits q = ground arith

module _ (c : ℕ) (rest : Bytes) where
  decode_two :
      0x80 ≤ c
      → c < 0x800
      → decode_from start ((0xc0 + c / 64) ∷ (0x80 + c % 64) ∷ rest)
        ≡ then_text c (decode_from start rest)
  decode_two p q =
      scan_lead _ _ _ (lead_two (c / 64) (omega arith) (omega arith))
      ∙ scan_last rest _ _ _ _ (omega arith) (omega arith)
      ∙ ap (λ (x : ℕ). then_text x (decode_from start rest)) (omega arith)

  decode_three :
      0x800 ≤ c
      → c < 0x10000
      → within 0xd800 0xdfff c ≡ false
      → decode_from start ((0xe0 + c / 4096) ∷ (0x80 + c / 64 % 64) ∷ (0x80 + c % 64) ∷ rest)
        ≡ then_text c (decode_from start rest)
  decode_three p q s =
      scan_lead _ _ _ (lead_three (c / 4096) (omega arith))
      ∙ scan_more _ _ _ _ _ _ (ground arith) (ground arith)
      ∙ scan_last rest _ _ _ _ (omega arith) (omega arith)
      ∙ ap (λ (x : ℕ). then_text x (decode_from start rest)) (omega arith)

  decode_four :
      0x10000 ≤ c
      → c < 0x110000
      → decode_from start (
          (0xf0 + c / 262144)
          ∷ (0x80 + c / 4096 % 64)
          ∷ (0x80 + c / 64 % 64)
          ∷ (0x80 + c % 64)
          ∷ rest)
        ≡ then_text c (decode_from start rest)
  decode_four p q =
      scan_lead _ _ _ (lead_four (c / 262144) (omega arith))
      ∙ scan_more _ _ _ _ _ _ (ground arith) (ground arith)
      ∙ scan_more _ _ _ _ _ _ (omega arith) (omega arith)
      ∙ scan_last rest _ _ _ _ (omega arith) (omega arith)
      ∙ ap (λ (x : ℕ). then_text x (decode_from start rest)) (omega arith)

decode-encode_char :
    (c : ℕ) (b rest : Bytes)
    → encode_char c ≡ ok b
    → decode_from start (b ++ rest) ≡ then_text c (decode_from start rest)
unfolding encode_char
decode-encode_char c b rest h =
    ground (arith, scan_ascii rest c, decode_two c rest, decode_three c rest, decode_four c rest)

encode_char_size : (c : ℕ) (b : Bytes) → encode_char c ≡ ok b → 1 ≤ length b
unfolding encode_char
encode_char_size c b h = ground arith

encode_char_wide : (c : ℕ) (b : Bytes) → encode_char c ≡ ok b → 0x80 ≤ c → 2 ≤ length b
unfolding encode_char
encode_char_wide c b h w = ground arith

encode_cons :
    (c : ℕ) (cs : Text) {bs : Bytes}
    → encode (c ∷ cs) ≡ ok bs
    → (b : Bytes) × (encode_char c ≡ ok b) × (b' : Bytes) × (encode cs ≡ ok b') × (b ++ b' ≡ bs)
unfolding encode
encode_cons c cs h =
    let (b, hb, more) = >>=-eq-ok (encode_char c) _ h in
    let (b', hb', e) = >>=-eq-ok (encode cs) _ more in (b, hb, b', hb', cc)

-- What `encode` writes, `decode` reads back as the same text.
pub decode-encode : (t : Text) {bs : Bytes} → encode t ≡ ok bs → decode bs ≡ ok t
unfolding decode
decode-encode [] h = unfold encode in ground arith
decode-encode (c ∷ cs) h =
    let (b, hb, b', hb', e) = encode_cons c cs h in
    rw (← e) (decode-encode_char c b b' hb ∙ rw (decode-encode cs hb') refl)

-- The bytes of a text that has a character beyond ASCII are more than its characters.
pub length-encode_ge : (t : Text) {bs : Bytes} → encode t ≡ ok bs → length t ≤ length bs
length-encode_ge [] h = omega arith
length-encode_ge (c ∷ cs) h =
    let (b, hb, b', hb', e) = encode_cons c cs h in
    rw (← e) (omega (arith, length-append b b', length-encode_ge cs hb', encode_char_size c b hb))

pub data HasWide : Text → Type 0 where
  here : {c : ℕ} {cs : Text} → 0x80 ≤ c → HasWide (c ∷ cs)
  there : {c : ℕ} {cs : Text} → HasWide cs → HasWide (c ∷ cs)

pub length-encode_gt : (t : Text) {bs : Bytes} → HasWide t → encode t ≡ ok bs → length t < length bs
length-encode_gt [] w h = elim w [ ]
length-encode_gt (c ∷ cs) (here w) h =
    let (b, hb, b', hb', e) = encode_cons c cs h in
    rw (← e) (omega (arith, length-append b b', length-encode_ge cs hb', encode_char_wide c b hb w))
length-encode_gt (c ∷ cs) (there w) h =
    let (b, hb, b', hb', e) = encode_cons c cs h in
    rw (← e) (omega (arith, length-append b b', length-encode_gt cs w hb', encode_char_size c b hb))

-- ASCII texts are their own encoding.
abbrev pub IsAscii : ℕ → Type 0
IsAscii c = c < 0x80

pub encode_ascii : (t : Text) → All IsAscii t → encode t ≡ ok t
unfolding encode encode_char
encode_ascii [] h = refl
encode_ascii (c ∷ cs) h = rw (lt→ltb c 0x80 h.0, encode_ascii cs h.1) refl

encode_char-Lacks : (c : ℕ) (b : Bytes) → encode_char c ≡ ok b → (c == 0) ≡ false → Lacks 0 b
unfolding encode_char has_char
encode_char-Lacks c b h n = ground arith

-- A text with no NUL is encoded with no NUL.
pub encode-Lacks : (t : Text) {bs : Bytes} → encode t ≡ ok bs → Lacks 0 t → Lacks 0 bs
encode-Lacks [] h n = unfold encode has_char in ground arith
encode-Lacks (c ∷ cs) h n =
    let (b, hb, b', hb', e) = encode_cons c cs h in
    let (nonzero, n') = Lacks-cons 0 c cs n in
    subst (Lacks 0) e
      (Lacks-append 0 b b' (encode_char-Lacks c b hb nonzero) (encode-Lacks cs hb' n'))
