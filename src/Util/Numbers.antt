-- ===== src/Util/Numbers.antt =====
-- `util::itoa`, `util::set_all_bits` and `util::atoi` (include/util.h), and the instances of
-- `format` that call them (include/format.cpp).
pub mod Decimal
pub mod Parse
pub mod RoundTrip
pub mod Printed
mod Tests
use mathlib.Core.List.{reverse}
use highload_cup.Common.{
  ℕ, zero, suc, ◌+◌, ◌-◌, ◌*◌, ◌/◌, ◌%◌, ◌^◌, Bool, true, false, not, ◌&&◌, ◌||◌, List, [], ◌∷◌,
  ◌++◌, Option, none, some, ltb, leb, ◌==◌, if◌then◌else◌, Bytes, codes, length, get_elem?,
  replicate, Fail, too_long, out_of_range, bad_symbol, bad_base, Result, ok, throw, ◌>>=◌,
}

-- The template argument: an integer type of so many bits.
pub record IntType : Type 0 where
  pub bits : ℕ
  pub signed : Bool

abbrev pub uint32 : IntType
uint32 = record { bits = 32; signed = false }

-- `long` on the platform of the Dockerfile.
abbrev pub int64 : IntType
int64 = record { bits = 64; signed = true }

-- `size_t` and `int`.
abbrev pub uint64 : IntType
uint64 = record { bits = 64; signed = false }

abbrev pub int32 : IntType
int32 = record { bits = 32; signed = true }

abbrev pub uchar : IntType
uchar = record { bits = 8; signed = false }

abbrev pub alph : Bytes
alph = codes "0123456789ABCDEFGHIJKLMNOPQRSTUVWXYZ"

-- `alph[i]`: at 36 the array ends in a zero byte.
abbrev pub alph_at : ℕ → ℕ
alph_at i = elim (get_elem? alph i) [ none ↦ 0 | some c ↦ c ]

-- `while (0 != arg)`: one round for each digit.
pub itoa_loop : ℕ → ℕ → ℕ → Bytes → Bytes
itoa_loop zero base arg result = result
itoa_loop (suc fuel) base arg result =
    let rest = itoa_loop fuel base (arg / base) (result ++ alph_at (arg % base) ∷ []) in
    if not (arg == 0) then rest else result

-- A value of at most 64 bits has at most 64 digits in every base from 2.
abbrev pub itoa_fuel : ℕ
itoa_fuel = 64

-- `sizeof(alph)` is 37, the zero byte counted.
unfoldable pub itoa : ℕ → ℕ → Result Bytes
unfolding itoa_loop
itoa arg base =
    if arg == 0
    then ok (codes "0")
    else if ltb 37 base
    then throw bad_base
    else ok (reverse (itoa_loop itoa_fuel base arg []))

-- `temp > 0`, on the bit pattern of `temp`.
abbrev positive : IntType → ℕ → Bool
positive t temp = if t.signed then ltb 0 temp && ltb temp (2 ^ (t.bits - 1)) else ltb 0 temp

pub set_bits_loop : ℕ → IntType → ℕ → ℕ → ℕ
set_bits_loop zero t temp res = res
set_bits_loop (suc fuel) t temp res =
    let rest = set_bits_loop fuel t ((temp * 2 + 1) % 2 ^ t.bits) temp in
    if not (temp == res) && positive t temp then rest else res

-- One round for each bit.
unfoldable pub set_all_bits : IntType → ℕ
unfolding set_bits_loop
set_all_bits t = set_bits_loop (t.bits + 1) t 1 0

-- `std::string::operator<`: bytes are compared unsigned.
pub lex_lt : Bytes → Bytes → Bool
lex_lt [] [] = false
lex_lt [] (y ∷ ys) = true
lex_lt (x ∷ xs) [] = false
lex_lt (x ∷ xs) (y ∷ ys) = if ltb x y then true else if ltb y x then false else lex_lt xs ys

-- `std::string::find` of a byte, from an index; `none` is `npos`.
unfoldable pub find_from : Bytes → ℕ → ℕ → Option ℕ
find_from [] c i = none
find_from (x ∷ xs) c i = if x == c then some i else find_from xs c (i + 1)

abbrev pub find : Bytes → ℕ → Option ℕ
find s c = find_from s c 0

-- The number that one symbol stands for; `npos` is not below the base either.
unfoldable pub digit_value : ℕ → ℕ → Result ℕ
unfolding find_from
digit_value base c = elim (find alph c) [
  | none ↦ throw bad_symbol
  | some pos ↦ if leb base pos then throw bad_symbol else ok pos
]

-- `result = result * base + pos`, in the type's arithmetic.
pub atoi_loop : IntType → ℕ → Bytes → ℕ → Result ℕ
atoi_loop t base [] result = ok result
atoi_loop t base (c ∷ str) result =
    digit_value base c >>= λ pos. atoi_loop t base str ((result * base + pos) % 2 ^ t.bits)

-- `atoi` behind the computation of `test_str`.
pub atoi_within : IntType → ℕ → Bytes → Bytes → Result ℕ
atoi_within t base test_str str =
    if leb (length str) (length test_str)
    then (let padded = replicate (length test_str - length str) b'0' ++ str in
        if lex_lt test_str padded then throw out_of_range else atoi_loop t base padded 0)
    else throw too_long

unfoldable pub atoi : IntType → Bytes → ℕ → Result ℕ
unfolding set_all_bits itoa atoi_within atoi_loop lex_lt digit_value
atoi t str base = itoa (set_all_bits t) base >>= λ test_str. atoi_within t base test_str str

-- `format` at the types that the code reads.
unfoldable pub format_uint32 : Bytes → Result ℕ
unfolding atoi
format_uint32 arg = atoi uint32 arg 10

unfoldable pub format_long : Bytes → Result ℕ
unfolding atoi
format_long arg = atoi int64 arg 10

unfoldable pub format_uchar : Bytes → Result ℕ
unfolding atoi
format_uchar arg = atoi uchar arg 10

unfoldable pub format_size : Bytes → Result ℕ
unfolding atoi
format_size arg = atoi uint64 arg 10

unfoldable pub format_int : Bytes → Result ℕ
unfolding atoi
format_int arg = atoi int32 arg 10
