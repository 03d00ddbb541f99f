-- ===== src/Object/Bytes.antt =====
-- src/object: numbers as bytes, and the alignment of offsets.
use aziky.Prelude.{
  ℕ, zero, suc, ◌+◌, ◌-◌, ◌*◌, ◌/◌, ◌%◌, ◌^◌, ◌<◌, ◌≤◌, ◌≡◌, refl, ap, ◌∙◌, arith, bit_and, bit_or,
  true, false, ◌||◌, Option, none, some, ◌>>=◌, List, [], ◌∷◌, ◌++◌, All, length, leb, ◌==◌,
  if◌then◌else◌, Bool-cases, inl, inr, ltb, ltb→lt, ==_iff,
}
use aziky.Prelude.Bits.{and_mask, or_step, zero_or}

-- `to_le_bytes` of a number of that many bytes.
unfoldable pub to_le_bytes : ℕ → ℕ → List ℕ
to_le_bytes zero value = []
to_le_bytes (suc width) value = value % 256 ∷ to_le_bytes width (value / 256)

unfoldable pub from_le_bytes : List ℕ → ℕ
from_le_bytes [] = 0
from_le_bytes (byte ∷ bytes) = byte + 256 * from_le_bytes bytes

pub length-to_le_bytes : (width value : ℕ) → length (to_le_bytes width value) ≡ width
unfolding to_le_bytes
length-to_le_bytes zero value = refl
length-to_le_bytes (suc width) value = ap suc (length-to_le_bytes width (value / 256))

-- The bytes of a number that fits them read back as the number.
pub from_le_bytes-to_le_bytes :
    (width value : ℕ) → value < 256 ^ width → from_le_bytes (to_le_bytes width value) ≡ value
unfolding from_le_bytes to_le_bytes
from_le_bytes-to_le_bytes zero value h = omega arith
from_le_bytes-to_le_bytes (suc width) value h =
    let rest = from_le_bytes-to_le_bytes width (value / 256) (grind arith) in omega (arith, rest)

-- LEB128: seven bits to a byte, the last byte the first below 128. A u64 takes ten rounds at most.
unfoldable pub push_uleb : ℕ → ℕ → Option (List ℕ)
push_uleb zero value = none
push_uleb (suc fuel) value =
    let byte = bit_and value 127 in
    let value' = value / 2 ^ 7 in
    let rest = push_uleb fuel value' in
    if value' == 0 then some (byte ∷ []) else (do bytes ← rest; some (bit_or byte 128 ∷ bytes))

-- What a reader of LEB128 does: it takes bytes up to the first below 128, and gives what is behind.
unfoldable pub read_uleb : List ℕ → Option (ℕ × List ℕ)
read_uleb [] = none
read_uleb (byte ∷ bytes) =
    let rest = read_uleb bytes in
    if leb 128 byte
    then (do (high, behind) ← rest; some (byte - 128 + 128 * high, behind))
    else some (byte, bytes)

or_high : (k r : ℕ) → r < 2 ^ k → bit_or r (2 ^ k) ≡ r + 2 ^ k
or_high zero r h = let e : r ≡ 0 = omega arith in rw e (zero_or 1)
or_high (suc k) r h =
    let step = or_step r (2 ^ suc k) in
    let half : 2 ^ suc k / 2 ≡ 2 ^ k = grind arith in
    let even : 2 ^ suc k % 2 ≡ 0 = grind arith in
    let rest = or_high k (r / 2) (grind arith) in
    let doubled : 2 ^ suc k ≡ 2 * 2 ^ k = grind arith in
    omega (arith, step, rest, even, ap (λ q. bit_or (r / 2) q) half, doubled)

abbrev pub IsByte : ℕ → Type 0
IsByte byte = byte < 256

uleb_last :
    (fuel value : ℕ)
    → value < 128
    → (push_uleb (suc fuel) value ≡ some (value ∷ []))
      × ((behind : List ℕ) → read_uleb (value ∷ behind) ≡ some (value, behind))
unfolding push_uleb read_uleb
uleb_last fuel value h =
    let byte : bit_and value 127 ≡ value = omega (arith, and_mask 7 value) in
    let done : (value / 128 == 0) ≡ true = (==_iff (value / 128) 0).1 (omega arith) in
    let low : leb 128 value ≡ false = ground arith in (rw (done, byte) refl, λ behind. rw low refl)

uleb_more :
    (fuel value : ℕ) (bytes : List ℕ)
    → 128 ≤ value
    → push_uleb fuel (value / 128) ≡ some bytes
    → (push_uleb (suc fuel) value ≡ some ((value % 128 + 128) ∷ bytes))
      × ((behind behind' : List ℕ)
          → read_uleb behind' ≡ some (value / 128, behind)
          → read_uleb ((value % 128 + 128) ∷ behind') ≡ some (value, behind))
unfolding push_uleb read_uleb
uleb_more fuel value bytes h pushed =
    let byte : bit_or (bit_and value 127) 128 ≡ value % 128 + 128 =
      ap (λ b. bit_or b 128) (and_mask 7 value) ∙ or_high 7 (value % 128) (omega arith) in
    let more : (value / 128 == 0) ≡ false = ground arith in
    let high : leb 128 (value % 128 + 128) ≡ true = ground arith in
    let sum : value % 128 + 128 - 128 + 128 * (value / 128) ≡ value = omega arith in
    (rw (more, pushed, byte) refl, λ behind behind' read. rw (high, read, sum) refl)

-- A number of at most seven bits for each of the rounds is written, in bytes; a reader takes it back
-- from the front of any bytes.
pub push_uleb-read_uleb :
    (fuel value : ℕ)
    → value < 128 ^ suc fuel
    → (bytes : List ℕ) × (push_uleb (suc fuel) value ≡ some bytes)
      × All IsByte bytes
      × ((behind : List ℕ) → read_uleb (bytes ++ behind) ≡ some (value, behind))
push_uleb-read_uleb zero value h =
    let (pushed, read) = uleb_last zero value (omega arith) in
    (value ∷ [], pushed, (omega arith, tt), read)
push_uleb-read_uleb (suc fuel) value h = elim (Bool-cases (ltb value 128)) [
  | inl small ↦
      let lt = ltb→lt value 128 small in
      let (pushed, read) = uleb_last (suc fuel) value lt in
      (value ∷ [], pushed, (omega arith, tt), read)
  | inr large ↦
      let (bytes, pushed, fits, read) = push_uleb-read_uleb fuel (value / 128) (grind arith) in
      let (pushed', read') = uleb_more (suc fuel) value bytes (ground arith) pushed in
      (
        (value % 128 + 128) ∷ bytes,
        pushed',
        (omega arith, fits),
        λ behind. read' behind (bytes ++ behind) (read behind),
      )
]

unfoldable pub align_up : ℕ → ℕ → ℕ
align_up value align =
    if leb align 1 || value % align == 0 then value else value + align - value % align
