-- ===== src/Number/Tests.antt =====
-- Examples for printing and reading numbers.
use esz_os.Base.{◌^◌, ◌≡◌, arith, Buffer}
use esz_os.Number.{to_int, to_string_signed}
use esz_os.Number.RoundTrip.{to_int-to_string_signed}

abbrev garbage : Buffer
garbage i = 7

-- The smallest `int64_t`, in hexadecimal.
to_int-to_string_signed_example :
    to_int (to_string_signed garbage garbage garbage (2 ^ 63) 16) 16 ≡ 2 ^ 63
to_int-to_string_signed_example =
    to_int-to_string_signed garbage garbage garbage (2 ^ 63) 16 (omega arith) (omega arith)
      (omega arith)
