-- ===== src/Common/Pack.antt =====
-- The packed encodings: lengths of one or two bytes, strings behind their length, and numbers in
-- little-endian order. A function that writes through `unsigned char *&` returns what it writes.
-- `x >> k` and `x & (2^k - 1)` are `x / 2 ^ k` and `x % 2 ^ k`; `|` of disjoint bits is a sum.
use pyconnect.Base.{
  Bool, Bytes, [], false, if◌then◌else◌, length, ltb, negsuc, pos, suc, true, zero, ℕ, ℤ, ◌%◌, ◌*◌,
  ◌++◌, ◌+◌, ◌/◌, ◌==◌, ◌∷◌,
}
use pyconnect.Common.Reader.{Reader, consumed, copy_bytes, next_byte, pure, ◌>>=◌, ◌>>◌}

-- `packIntToStr`: its result is the number of bytes written.
unfoldable pub pack_int_to_str : ℤ → Bytes
pack_int_to_str (negsuc n) = []
pack_int_to_str (pos num) =
    if ltb num 128
    then num ∷ []
    else if ltb num 32768
    then (num % 128 + 0x80) ∷ (num / 128 % 256) ∷ []
    else []

-- `packedIntLen`: the second test has no lower bound.
unfoldable pub packed_int_len : ℤ → ℕ
packed_int_len (negsuc n) = 2
packed_int_len (pos num) = if ltb num 128 then 1 else if ltb num 32768 then 2 else 0

-- The second byte of `unpackStrToInt`, when the first one has its top bit set.
unfoldable pub unpack_extended : ℕ → Reader ℕ
unfolding next_byte consumed
unpack_extended first = do second ← next_byte; consumed 2; pure (second * 128 + first % 128)

unfoldable pub unpack_single : ℕ → Reader ℕ
unfolding consumed
unpack_single first = do consumed 1; pure first

unfoldable pub unpack_str_to_int : Reader ℕ
unfolding next_byte unpack_extended unpack_single
unpack_str_to_int = do
  first ← next_byte
  if first / 128 % 2 == 1 then unpack_extended first else unpack_single first

-- `packString`, whose `length` argument is that of the text at every call.
unfoldable pub pack_string : Bool → Bytes → Bytes
unfolding pack_int_to_str
pack_string true str = pack_int_to_str (pos (length str)) ++ str
pack_string false str = (length str % 256) ∷ str

-- `std::string(char *)` stops at the first zero byte.
unfoldable pub c_string : Bytes → Bytes
c_string [] = []
c_string (b ∷ bs) = let rest = c_string bs in if b == 0 then [] else b ∷ rest

-- The length in front of a string: the one-byte form leaves the count alone.
unfoldable pub unpack_length : Bool → Reader ℕ
unfolding next_byte unpack_str_to_int
unpack_length true = unpack_str_to_int
unpack_length false = next_byte

unfoldable pub unpack_chars : ℕ → Reader Bytes
unfolding copy_bytes consumed c_string
unpack_chars len = do str ← copy_bytes len; consumed len; pure (c_string str)

unfoldable pub unpack_string : Bool → Reader Bytes
unfolding unpack_length unpack_chars
unpack_string extend_size = do
  len ← unpack_length extend_size
  if len == 0 then pure [] else unpack_chars len

-- `packToLENumber` of a number of `size` bytes, given by its bit pattern.
unfoldable pub pack_to_le_number : ℕ → ℕ → Bytes
pack_to_le_number zero v = []
pack_to_le_number (suc size) v = (v % 256) ∷ pack_to_le_number size (v / 256)

unfoldable pub le_number : Bytes → ℕ
le_number [] = 0
le_number (b ∷ bs) = b + 256 * le_number bs

unfoldable pub unpack_le_number : ℕ → Reader ℕ
unfolding copy_bytes consumed le_number
unpack_le_number size = do bytes ← copy_bytes size; consumed size; pure (le_number bytes)
