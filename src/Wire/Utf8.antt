-- ===== src/Wire/Utf8.antt =====
-- `std::str::from_utf8`, as the automaton of the well-formed byte sequences. A Rust `String` is the
-- list of its bytes, which this test accepts.
use dart_odbc_fast.Prelude.{ℕ, Bool, true, false, ◌&&◌, [], ◌∷◌, leb, ltb, if◌then◌else◌}
use dart_odbc_fast.Wire.{Bytes}

-- What the next byte may be: the start of a character, one of one to three continuation bytes, or
-- a first continuation byte of a restricted range.
pub data Utf8 : Type 0 where
  start tail1 tail2 tail3 : Utf8
  after_e0 after_ed after_f0 after_f4 : Utf8
  invalid : Utf8

abbrev within : ℕ → ℕ → ℕ → Bool
within lo hi b = leb lo b && leb b hi

abbrev lead : ℕ → Utf8
lead b =
    if ltb b 0x80
    then start
    else if within 0xc2 0xdf b
    then tail1
    else if within 0xe0 0xe0 b
    then after_e0
    else if within 0xed 0xed b
    then after_ed
    else if within 0xe1 0xef b
    then tail2
    else if within 0xf0 0xf0 b
    then after_f0
    else if within 0xf1 0xf3 b
    then tail3
    else if within 0xf4 0xf4 b
    then after_f4
    else invalid

unfoldable pub utf8_step : Utf8 → ℕ → Utf8
utf8_step start b = lead b
utf8_step tail1 b = if within 0x80 0xbf b then start else invalid
utf8_step tail2 b = if within 0x80 0xbf b then tail1 else invalid
utf8_step tail3 b = if within 0x80 0xbf b then tail2 else invalid
utf8_step after_e0 b = if within 0xa0 0xbf b then tail1 else invalid
utf8_step after_ed b = if within 0x80 0x9f b then tail1 else invalid
utf8_step after_f0 b = if within 0x90 0xbf b then tail2 else invalid
utf8_step after_f4 b = if within 0x80 0x8f b then tail2 else invalid
utf8_step invalid b = invalid

unfoldable pub utf8_run : Utf8 → Bytes → Utf8
utf8_run s [] = s
utf8_run s (b ∷ bs) = utf8_run (utf8_step s b) bs

abbrev pub accepts : Utf8 → Bool
accepts start = true
accepts _ = false

unfoldable pub is_utf8 : Bytes → Bool
unfolding utf8_run utf8_step
is_utf8 bs = accepts (utf8_run start bs)
