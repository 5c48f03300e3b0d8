-- ===== src/Base64/RoundTrip.antt =====
-- Decoding undoes encoding.
use Prim.Native.Nat.{bit_and, bit_or}
use mathlib.Core.Path.{ap₂}
use libwired.Base.{
  ℕ, suc, ◌+◌, ◌*◌, ◌/◌, ◌%◌, ◌<◌, ◌≡◌, refl, sym, ap, ◌∙◌, false, List, [], ◌∷◌, ◌++◌, map, take,
  All, append-nil, append_assoc, replicate, ◌-◌, arith, if◌then◌else◌, ◌==◌, ◌||◌,
}
use libwired.Base64.Codec.{
  table_char, sextets, encode_group, string_from_data, classify, Decoder, octets, push, store,
  decode_step, decode_loop, data_from_string,
}
use libwired.Base64.Bits.{
  and_fc, and_03, and_f0, and_0f, and_c0, and_3f, and_30, and_3c, join_4, join_16, join_64,
  classify-table_char,
}

abbrev pub IsByte : ℕ → Type 0
IsByte b = b < 256

-- The four groups of six bits.
abbrev six : ℕ → ℕ → ℕ → List ℕ
six a b c = a / 4 ∷ (a % 4 * 16 + b / 16) ∷ (b % 16 * 4 + c / 64) ∷ c % 64 ∷ []

sextets-six : (a b c : ℕ) → IsByte a → IsByte b → IsByte c → sextets a b c ≡ six a b c
unfolding sextets
sextets-six a b c ha hb hc =
    rw (and_fc a ha, and_03 a ha, and_f0 b hb, and_0f b hb, and_c0 c hc, and_3f c hc)
      (rw (
        join_16 (a % 4) (b / 16) (omega arith) (omega arith),
        join_4 (b % 16) (c / 64) (omega arith) (omega arith),
      ))

-- Each byte comes back from two of the groups.
first_octet :
    (a b : ℕ)
    → IsByte a
    → IsByte b
    → bit_or (a / 4 * 4) (bit_and (a % 4 * 16 + b / 16) 0x30 / 16) % 256 ≡ a
first_octet a b ha hb =
    rw (and_30 (a % 4 * 16 + b / 16) (omega arith))
      (rw (join_4 (a / 4) ((a % 4 * 16 + b / 16) / 16) (omega arith) (omega arith)) (omega arith))

second_octet :
    (a b c : ℕ)
    → IsByte a
    → IsByte b
    → IsByte c
    → bit_or (bit_and (a % 4 * 16 + b / 16) 0x0F * 16) (bit_and (b % 16 * 4 + c / 64) 0x3C / 4)
        % 256
      ≡ b
second_octet a b c ha hb hc =
    rw (and_0f (a % 4 * 16 + b / 16) (omega arith), and_3c (b % 16 * 4 + c / 64) (omega arith))
      (rw
        (join_16 ((a % 4 * 16 + b / 16) % 16) ((b % 16 * 4 + c / 64) / 4) (omega arith)
          (omega arith))
        (omega arith))

third_octet :
    (b c : ℕ)
    → IsByte b
    → IsByte c
    → bit_or (bit_and (b % 16 * 4 + c / 64) 0x03 * 64) (bit_and (c % 64) 0x3F) % 256 ≡ c
third_octet b c hb hc =
    rw (and_03 (b % 16 * 4 + c / 64) (omega arith), and_3f (c % 64) (omega arith))
      (rw (join_64 ((b % 16 * 4 + c / 64) % 4) (c % 64 % 64) (omega arith) (omega arith))
        (omega arith))

decode_value : (d : Decoder) (i : ℕ) → i < 64 → decode_step d (table_char i) ≡ (push d i 3, false)
decode_value d i h = unfold decode_step in rw (classify-table_char i h, decode_step)

-- One character of the table is one value in the buffer.
table-step :
    (d : Decoder) (i : ℕ) (rest : List ℕ)
    → i < 64
    → decode_loop d (table_char i ∷ rest) ≡ decode_loop (push d i 3) rest
table-step d i rest h = unfold decode_loop in rw (decode_value d i h, decode_loop)

padding-step :
    (d : Decoder) (o : ℕ) (rest : List ℕ)
    → d.offset ≡ suc o
    → decode_loop d (b'=' ∷ rest)
      ≡ push (record d { offset = 3 }) b'=' (if d.offset == 1 || d.offset == 2 then 1 else 2)
unfolding decode_loop decode_step classify
padding-step d o rest e = let ne : (d.offset == 0) ≡ false = ground arith in rw ne

-- The decoder with `offset` places of the buffer still to be used.
abbrev decoder : ℕ → ℕ → ℕ → ℕ → ℕ → List ℕ → Decoder
decoder j0 j1 j2 j3 offset out = record {
  in0 = j0;
  in1 = j1;
  in2 = j2;
  in3 = j3;
  offset = offset;
  out = out;
}

module _ (j0 j1 j2 j3 : ℕ) (out rest : List ℕ) where
  two_values :
      (v0 v1 : ℕ)
      → v0 < 64
      → v1 < 64
      → decode_loop (decoder j0 j1 j2 j3 0 out) (table_char v0 ∷ table_char v1 ∷ rest)
        ≡ decode_loop (decoder v0 v1 j2 j3 2 out) rest
  unfolding push store
  two_values v0 v1 h0 h1 = table-step _ v0 _ h0 ∙ table-step (decoder v0 j1 j2 j3 1 out) v1 rest h1

  four_values :
      (v2 v3 : ℕ)
      → v2 < 64
      → v3 < 64
      → decode_loop (decoder j0 j1 j2 j3 2 out) (table_char v2 ∷ table_char v3 ∷ rest)
        ≡ decode_loop (decoder j0 j1 v2 v3 0 (out ++ octets (decoder j0 j1 v2 v3 3 out))) rest
  unfolding push store octets
  four_values v2 v3 h2 h3 = table-step _ v2 _ h2 ∙ table-step (decoder j0 j1 v2 j3 3 out) v3 rest h3

encode_group-six :
    (a b c n : ℕ)
    → IsByte a
    → IsByte b
    → IsByte c
    → encode_group a b c n ≡ map table_char (take n (six a b c)) ++ replicate (4 - n) b'='
encode_group-six a b c n ha hb hc =
    unfold encode_group in rw (sextets-six a b c ha hb hc, encode_group)

-- The decoder over a full group, and over a last group of one byte and of two.
module _ (j0 j1 j2 j3 : ℕ) (out : List ℕ) where
  full_group :
      (a b c : ℕ) (rest : List ℕ)
      → IsByte a
      → IsByte b
      → IsByte c
      → decode_loop (decoder j0 j1 j2 j3 0 out) (encode_group a b c 4 ++ rest)
        ≡ decode_loop
            (decoder
              (a / 4)
              (a % 4 * 16 + b / 16)
              (b % 16 * 4 + c / 64)
              (c % 64)
              0
              (out ++ a ∷ b ∷ c ∷ []))
            rest
  full_group a b c rest ha hb hc = rw (encode_group-six a b c 4 ha hb hc) (
      two_values j0 j1 j2 j3 out _ (a / 4) (a % 4 * 16 + b / 16) (omega arith) (omega arith)
      ∙ four_values (a / 4) (a % 4 * 16 + b / 16) j2 j3 out rest (b % 16 * 4 + c / 64) (c % 64)
          (omega arith) (omega arith)
      ∙ unfold octets in
        rw (first_octet a b ha hb, second_octet a b c ha hb hc, third_octet b c hb hc))

  last_one :
      (a : ℕ)
      → IsByte a
      → (decode_loop (decoder j0 j1 j2 j3 0 out) (encode_group a 0 0 2)).out ≡ out ++ a ∷ []
  unfolding push store octets
  last_one a ha =
      let v1 = a % 4 * 16 + 0 / 16 in
      rw (encode_group-six a 0 0 2 ha (omega arith) (omega arith)) (
        ap (λ (d : Decoder). d.out)
          (two_values j0 j1 j2 j3 out (b'=' ∷ b'=' ∷ []) (a / 4) v1 (omega arith) (omega arith)
            ∙ padding-step (decoder (a / 4) v1 j2 j3 2 out) 1 (b'=' ∷ []) refl)
        ∙ ap (λ x. out ++ x ∷ []) (first_octet a 0 ha (omega arith)))

  last_two :
      (a b : ℕ)
      → IsByte a
      → IsByte b
      → (decode_loop (decoder j0 j1 j2 j3 0 out) (encode_group a b 0 3)).out ≡ out ++ a ∷ b ∷ []
  unfolding push store octets
  last_two a b ha hb =
      let v1 = a % 4 * 16 + b / 16 in
      let v2 = b % 16 * 4 + 0 / 64 in
      rw (encode_group-six a b 0 3 ha hb (omega arith)) (
        ap (λ (d : Decoder). d.out)
          (two_values j0 j1 j2 j3 out (table_char v2 ∷ b'=' ∷ []) (a / 4) v1 (omega arith)
              (omega arith)
            ∙ table-step (decoder (a / 4) v1 j2 j3 2 out) v2 (b'=' ∷ []) (omega arith)
            ∙ padding-step (decoder (a / 4) v1 v2 j3 3 out) 2 [] refl)
        ∙ ap₂ (λ x y. out ++ x ∷ y ∷ []) (first_octet a b ha hb)
            (second_octet a b 0 ha hb (omega arith)))

decode_group-string :
    (j0 j1 j2 j3 : ℕ) (out : List ℕ) (a b c : ℕ) (rest : List ℕ)
    → All IsByte (a ∷ b ∷ c ∷ rest)
    → (decode_loop
        (decoder
          (a / 4)
          (a % 4 * 16 + b / 16)
          (b % 16 * 4 + c / 64)
          (c % 64)
          0
          (out ++ a ∷ b ∷ c ∷ []))
        (string_from_data rest)).out
      ≡ (out ++ a ∷ b ∷ c ∷ []) ++ rest
    → (decode_loop (decoder j0 j1 j2 j3 0 out) (string_from_data (a ∷ b ∷ c ∷ rest))).out
      ≡ out ++ a ∷ b ∷ c ∷ rest
unfolding string_from_data
decode_group-string j0 j1 j2 j3 out a b c rest h ih =
    ap (λ (d : Decoder). d.out)
      (full_group j0 j1 j2 j3 out a b c (string_from_data rest) h.0 h.1.0 h.1.1.0)
    ∙ ih
    ∙ append_assoc out (a ∷ b ∷ c ∷ []) rest

-- From an empty buffer, whatever stands in its places, the decoder appends the encoded bytes.
decode_loop-string :
    (j0 j1 j2 j3 : ℕ) (out bytes : List ℕ)
    → All IsByte bytes
    → (decode_loop (decoder j0 j1 j2 j3 0 out) (string_from_data bytes)).out ≡ out ++ bytes
decode_loop-string j0 j1 j2 j3 out [] h =
    unfold string_from_data decode_loop in sym (append-nil out)
decode_loop-string j0 j1 j2 j3 out (a ∷ []) h =
    unfold string_from_data in last_one j0 j1 j2 j3 out a h.0
decode_loop-string j0 j1 j2 j3 out (a ∷ b ∷ []) h =
    unfold string_from_data in last_two j0 j1 j2 j3 out a b h.0 h.1.0
decode_loop-string j0 j1 j2 j3 out (a ∷ b ∷ c ∷ rest) h =
    decode_group-string j0 j1 j2 j3 out a b c rest h (
      decode_loop-string (a / 4) (a % 4 * 16 + b / 16) (b % 16 * 4 + c / 64) (c % 64)
        (out ++ a ∷ b ∷ c ∷ []) rest h.1.1.1)

-- `wi_data_from_base64_string` gives back the bytes that `wi_base64_string_from_data` was given,
-- whatever the decoder's buffer held at the start.
pub data_from_string-string_from_data :
    (j0 j1 j2 j3 : ℕ) (bytes : List ℕ)
    → All IsByte bytes
    → data_from_string j0 j1 j2 j3 (string_from_data bytes) ≡ bytes
unfolding data_from_string
data_from_string-string_from_data j0 j1 j2 j3 bytes h = decode_loop-string j0 j1 j2 j3 [] bytes h
