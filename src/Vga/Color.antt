-- ===== src/Vga/Color.antt =====
-- src/vga.rs: `Color`, and the color byte of a cell, the background in its high half.
use zkrnl.Base.{ℕ, ◌*◌, ◌%◌, ◌^◌, bit_or}

pub data Color : Type 0 where
  black blue green cyan red magenta brown light_gray : Color
  dark_gray light_blue light_green light_cyan light_red pink yellow white : Color

-- `self as u8`
unfoldable pub color_bits : Color → ℕ
color_bits black = 0x0
color_bits blue = 0x1
color_bits green = 0x2
color_bits cyan = 0x3
color_bits red = 0x4
color_bits magenta = 0x5
color_bits brown = 0x6
color_bits light_gray = 0x7
color_bits dark_gray = 0x8
color_bits light_blue = 0x9
color_bits light_green = 0xA
color_bits light_cyan = 0xB
color_bits light_red = 0xC
color_bits pink = 0xD
color_bits yellow = 0xE
color_bits white = 0xF

-- `Color::on`
unfoldable pub on : Color → Color → ℕ
unfolding color_bits
on self bg = bit_or (color_bits bg * 2 ^ 4 % 2 ^ 8) (color_bits self)
