-- ===== src/Common/RoundTrip.antt =====
-- What the packers write, the readers read back.
use pyconnect.Base.{
  All, Bool, Bool-cases, Bytes, [], ap, arith, drop-append_length, false, if◌then◌else◌, inl, inr,
  length, length-append, ltb, ltb→le, ltb→lt, minus, ne→==, pos, refl, suc, take-append_length,
  true, zero, ℕ, ◌%◌, ◌*◌, ◌++◌, ◌+◌, ◌/◌, ◌<◌, ◌==◌, ◌^◌, ◌∷◌, ◌≡◌, ◌≢◌, ◌≤◌,
}
use pyconnect.Common.Reader.{Reads, Reads-bind, next_byte, pure}
use native.Mathlib.Nat.{pow-suc}
use pyconnect.Common.Pack.{
  c_string, le_number, pack_int_to_str, pack_string, pack_to_le_number, packed_int_len,
  unpack_chars, unpack_le_number, unpack_length, unpack_str_to_int, unpack_string,
}

-- What `pack_int_to_str` writes in its two ranges.
pub pack_int_to_str-lt_128 : (n : ℕ) → n < 128 → pack_int_to_str (pos n) ≡ n ∷ []
unfolding pack_int_to_str
pack_int_to_str-lt_128 n h = ground arith

pub pack_int_to_str-lt_32768 :
    (n : ℕ)
    → 128 ≤ n
    → n < 32768
    → pack_int_to_str (pos n) ≡ (n % 128 + 0x80) ∷ (n / 128 % 256) ∷ []
unfolding pack_int_to_str
pack_int_to_str-lt_32768 n h k = ground arith

-- Both functions agree on the number of bytes for every count that is not negative.
pub length-pack_int_to_str : (n : ℕ) → length (pack_int_to_str (pos n)) ≡ packed_int_len (pos n)
unfolding pack_int_to_str packed_int_len
length-pack_int_to_str n = ground arith

pub length-pack_string :
    (s : Bytes) → length (pack_string true s) ≡ length s + packed_int_len (pos (length s))
unfolding pack_string
length-pack_string s = omega (
  arith,
  length-append {0} (pack_int_to_str (pos (length s))) s,
  length-pack_int_to_str (length s),
)

unpack_single-Reads : (n : ℕ) → n < 128 → Reads unpack_str_to_int (n ∷ []) n
unfolding unpack_str_to_int
unpack_single-Reads n h rest r = (minus r 1, ground arith)

unpack_extended-Reads :
    (n : ℕ)
    → 128 ≤ n
    → n < 32768
    → Reads unpack_str_to_int ((n % 128 + 0x80) ∷ (n / 128 % 256) ∷ []) n
unfolding unpack_str_to_int
unpack_extended-Reads n h k rest r = (minus r 2, ground arith)

-- A count below 32768 is read back from the one or two bytes that are written for it.
pub Reads-pack_int_to_str :
    (n : ℕ) → n < 32768 → Reads unpack_str_to_int (pack_int_to_str (pos n)) n
Reads-pack_int_to_str n h = elim (Bool-cases (ltb n 128)) [
  | inl lo ↦
      rw (pack_int_to_str-lt_128 n (ltb→lt n 128 lo)) (unpack_single-Reads n (ltb→lt n 128 lo))
  | inr hi ↦
      rw (pack_int_to_str-lt_32768 n (ltb→le n 128 hi) h)
        (unpack_extended-Reads n (ltb→le n 128 hi) h)
]

abbrev pub NonZero : Bytes → Type 0
NonZero = All (λ b. b ≢ 0)

pub c_string-NonZero : (s : Bytes) → NonZero s → c_string s ≡ s
unfolding c_string
c_string-NonZero [] h = refl
c_string-NonZero (b ∷ s) (hb, hs) = ground (arith, c_string-NonZero s hs)

unpack_chars-Reads : (s : Bytes) → NonZero s → Reads (unpack_chars (length s)) s s
unfolding unpack_chars
unpack_chars-Reads s h rest n = (
  minus n (length s),
  ground (
    arith,
    take-append_length s rest,
    drop-append_length s rest,
    length-append s rest,
    c_string-NonZero s h,
  ),
)

abbrev pub length_limit : Bool → ℕ
length_limit true = 32768
length_limit false = 256

abbrev pub packed_length : Bool → ℕ → Bytes
packed_length true n = pack_int_to_str (pos n)
packed_length false n = n ∷ []

Reads-packed_length :
    (extend_size : Bool) (n : ℕ)
    → n < length_limit extend_size
    → Reads (unpack_length extend_size) (packed_length extend_size n) n
unfolding unpack_length next_byte
Reads-packed_length true n h = Reads-pack_int_to_str n h
Reads-packed_length false n h = λ rest r. (r, refl)

pub pack_string_lem :
    (extend_size : Bool) (s : Bytes)
    → length s < length_limit extend_size
    → pack_string extend_size s ≡ packed_length extend_size (length s) ++ s
unfolding pack_string
pack_string_lem true s h = refl
pack_string_lem false s h = ap (λ n. n ∷ s) (omega arith)

string_body-Reads :
    (s : Bytes) → NonZero s → Reads (if length s == 0 then pure [] else unpack_chars (length s)) s s
string_body-Reads [] z = λ rest n. (n, refl)
string_body-Reads (b ∷ s) z =
    rw (ne→== (suc (length s)) 0 (omega arith)) (unpack_chars-Reads (b ∷ s) z)

-- A string without zero bytes is read back behind its length, if the length fits its field.
pub Reads-pack_string :
    (extend_size : Bool) (s : Bytes)
    → NonZero s
    → length s < length_limit extend_size
    → Reads (unpack_string extend_size) (pack_string extend_size s) s
unfolding unpack_string
Reads-pack_string ext s z h = rw (pack_string_lem ext s h) (
    Reads-bind (unpack_length ext) _ (packed_length ext (length s)) s (length s) s
      (Reads-packed_length ext (length s) h) (string_body-Reads s z))

pub length-pack_to_le_number : (size v : ℕ) → length (pack_to_le_number size v) ≡ size
unfolding pack_to_le_number
length-pack_to_le_number zero v = refl
length-pack_to_le_number (suc size) v = ap suc (length-pack_to_le_number size (v / 256))

pub le_number-pack_to_le_number :
    (size v : ℕ) → v < 256 ^ size → le_number (pack_to_le_number size v) ≡ v
unfolding pack_to_le_number le_number
le_number-pack_to_le_number zero v h = omega arith
le_number-pack_to_le_number (suc size) v h =
    let below : v < 256 ^ size * 256 = rw (← pow-suc 256 size) h in
    omega (arith, le_number-pack_to_le_number size (v / 256) (omega arith))

-- A number that fits `size` bytes is read back from the little-endian bytes that are written for it.
pub Reads-pack_to_le_number :
    (size v : ℕ) → v < 256 ^ size → Reads (unpack_le_number size) (pack_to_le_number size v) v
unfolding unpack_le_number
Reads-pack_to_le_number size v h rest n =
    let bs = pack_to_le_number size v in
    (
      minus n size,
      ground (
        arith,
        length-pack_to_le_number size v,
        take-append_length bs rest,
        drop-append_length bs rest,
        length-append bs rest,
        le_number-pack_to_le_number size v h,
      ),
    )
