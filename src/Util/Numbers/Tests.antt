-- ===== src/Util/Numbers/Tests.antt =====
-- Runs of the number parser on inputs that can be followed in include/util.h.
use highload_cup.Common.{◌≡◌, refl, [], codes, ok, throw, too_long, out_of_range, bad_symbol}
use highload_cup.Util.Numbers.{format_uint32, format_long, format_uchar}

parses :
    (format_uint32 (codes "4294967295") ≡ ok 4294967295)
    × (format_uint32 (codes "0042") ≡ ok 42)
    × (format_uint32 [] ≡ ok 0)
    × (format_long (codes "9223372036854775807") ≡ ok 9223372036854775807)
    × (format_uchar (codes "255") ≡ ok 255)
unfolding format_uint32 format_long format_uchar
parses = (refl, refl, refl, refl, refl)

refuses :
    (format_uint32 (codes "4294967296") ≡ throw out_of_range)
    × (format_uint32 (codes "00000000001") ≡ throw too_long)
    × (format_uint32 (codes "12a") ≡ throw bad_symbol)
    × (format_long (codes "-1") ≡ throw bad_symbol)
    × (format_uchar (codes "256") ≡ throw out_of_range)
unfolding format_uint32 format_long format_uchar
refuses = (refl, refl, refl, refl, refl)
