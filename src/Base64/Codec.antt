-- ===== src/Base64/Codec.antt =====
-- The two functions of libwired/crypto/wi-base64.c. Bytes and characters are numbers below 256; a
-- `char` that is negative in C is a number above 127 here, and passes none of the tests either way.
use Prim.Native.Nat.{bit_and, bit_or}
use Prim.Native.Char.{code}
use Prim.Native.String.{String}
use libwired.Base.{
  ℕ, ◌+◌, ◌-◌, ◌*◌, ◌/◌, ◌%◌, Bool, true, false, ◌&&◌, ◌||◌, List, [], ◌∷◌, ◌++◌, map, take, get_or,
  replicate, leb, ◌==◌, if◌then◌else◌,
}

abbrev pub codes : String → List ℕ
codes String.[] = []
codes (String.◌∷◌ c s) = code c ∷ codes s

-- `base64_table`
abbrev pub base64_table : List ℕ
base64_table = codes "ABCDEFGHIJKLMNOPQRSTUVWXYZabcdefghijklmnopqrstuvwxyz0123456789+/"

unfoldable pub table_char : ℕ → ℕ
table_char i = get_or base64_table i 0

-- `outbuffer`, from the three bytes of `inbuffer`.
unfoldable pub sextets : ℕ → ℕ → ℕ → List ℕ
sextets a b c =
    bit_and a 0xFC / 4
    ∷ bit_or (bit_and a 0x03 * 16) (bit_and b 0xF0 / 16)
    ∷ bit_or (bit_and b 0x0F * 4) (bit_and c 0xC0 / 64)
    ∷ bit_and c 0x3F
    ∷ []

-- One round of the loop: `count` characters of the table, then padding.
unfoldable pub encode_group : ℕ → ℕ → ℕ → ℕ → List ℕ
unfolding sextets table_char
encode_group a b c count = map table_char (take count (sextets a b c)) ++ replicate (4 - count) b'='

-- `wi_base64_string_from_data`: a missing byte is 0, and `count` goes by what remains.
unfoldable pub string_from_data : List ℕ → List ℕ
unfolding encode_group
string_from_data [] = []
string_from_data (a ∷ []) = encode_group a 0 0 2
string_from_data (a ∷ b ∷ []) = encode_group a b 0 3
string_from_data (a ∷ b ∷ c ∷ rest) = encode_group a b c 4 ++ string_from_data rest

-- What one character means: a value below 64, the padding, or nothing.
pub data Symbol : Type 0 where
  value : ℕ → Symbol
  padding ignored : Symbol

unfoldable pub classify : ℕ → Symbol
classify ch =
    if leb b'A' ch && leb ch b'Z'
    then value (ch - b'A')
    else if leb b'a' ch && leb ch b'z'
    then value (ch - b'a' + 26)
    else if leb b'0' ch && leb ch b'9'
    then value (ch - b'0' + 52)
    else if ch == b'+'
    then value 62
    else if ch == b'='
    then padding
    else if ch == b'/'
    then value 63
    else ignored

-- `inbuffer`, whose places hold anything at the start, `offset`, and the data so far.
pub record Decoder : Type 0 where
  pub in0 : ℕ
  pub in1 : ℕ
  pub in2 : ℕ
  pub in3 : ℕ
  pub offset : ℕ
  pub out : List ℕ

-- `inbuffer[offset] = ch`
unfoldable pub store : Decoder → ℕ → Decoder
store d ch =
    if d.offset == 0
    then record d { in0 = ch }
    else if d.offset == 1
    then record d { in1 = ch }
    else if d.offset == 2
    then record d { in2 = ch }
    else record d { in3 = ch }

-- `outbuffer`; an assignment to a `char` keeps eight bits.
unfoldable pub octets : Decoder → List ℕ
octets d =
    bit_or (d.in0 * 4) (bit_and d.in1 0x30 / 16) % 256
    ∷ bit_or (bit_and d.in1 0x0F * 16) (bit_and d.in2 0x3C / 4) % 256
    ∷ bit_or (bit_and d.in2 0x03 * 64) (bit_and d.in3 0x3F) % 256
    ∷ []

-- `inbuffer[offset++] = ch`, and `count` bytes of output if that fills it.
unfoldable pub push : Decoder → ℕ → ℕ → Decoder
unfolding store octets
push d ch count =
    let e = store d ch in
    if e.offset + 1 == 4
    then record e { offset = 0; out = e.out ++ take count (octets e) }
    else record e { offset = e.offset + 1 }

-- One round of the loop: the new state, and whether the loop ends by `break`.
unfoldable pub decode_step : Decoder → ℕ → Decoder × Bool
unfolding classify push
decode_step d ch = elim (classify ch) [
  | ignored ↦ (d, false)
  | value v ↦ (push d v 3, false)
  | padding ↦ if d.offset == 0 then (d, true) else (
    push (record d { offset = 3 }) ch (if d.offset == 1 || d.offset == 2 then 1 else 2),
    true,
  )
]

unfoldable pub decode_loop : Decoder → List ℕ → Decoder
unfolding decode_step
decode_loop d [] = d
decode_loop d (ch ∷ rest) =
    let (e, stop) = decode_step d ch in let more = decode_loop e rest in if stop then e else more

-- `wi_data_from_base64_string`, over what `inbuffer` holds before it is written.
unfoldable pub data_from_string : ℕ → ℕ → ℕ → ℕ → List ℕ → List ℕ
unfolding decode_loop
data_from_string j0 j1 j2 j3 string =
    (decode_loop (record { in0 = j0; in1 = j1; in2 = j2; in3 = j3; offset = 0; out = [] })
      string).out
