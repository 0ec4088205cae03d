-- ===== src/Log/Console.antt =====
-- The styles of include/boost/cmt/log/console_defines.h: the texts that set them on a terminal, by
-- the number between `ESC [` and `m`, and the empty texts of a build without colors.
use boost_cmt.Base.{
  ℕ, ◌+◌, ◌*◌, ◌/◌, ◌%◌, ◌-◌, ◌≡◌, refl, List, [], ◌∷◌, ◌++◌, Option, none, some, if◌then◌else◌,
  ltb, ◌==◌,
}

pub data Color : Type 0 where
  black red green brown blue magenta cyan white : Color

pub data Style : Type 0 where
  default bold half_bright italic underline blink rapid_blink reversed concealed strikethrough :
      Style
  fore back : Color → Style

abbrev pub color_code : Color → ℕ
color_code black = 0
color_code red = 1
color_code green = 2
color_code brown = 3
color_code blue = 4
color_code magenta = 5
color_code cyan = 6
color_code white = 7

abbrev pub style_code : Style → ℕ
style_code default = 0
style_code bold = 1
style_code half_bright = 2
style_code italic = 3
style_code underline = 4
style_code blink = 5
style_code rapid_blink = 6
style_code reversed = 7
style_code concealed = 8
style_code strikethrough = 9
style_code (fore c) = 30 + color_code c
style_code (back c) = 40 + color_code c

abbrev pub digits : ℕ → List ℕ
digits n = if ltb n 10 then (b'0' + n) ∷ [] else (b'0' + n / 10) ∷ (b'0' + n % 10) ∷ []

-- The text of a style on a terminal.
unfoldable pub escape : Style → List ℕ
escape s = 27 ∷ b'[' ∷ (digits (style_code s) ++ (b'm' ∷ []))

-- The text in a build without colors.
unfoldable pub no_escape : Style → List ℕ
no_escape s = []

-- How a terminal reads such a text: the number up to `m`, and what follows.
unfoldable pub read_number : ℕ → List ℕ → Option (ℕ × List ℕ)
read_number n [] = none
read_number n (x ∷ s) =
    let more = read_number (10 * n + (x - b'0')) s in
    if x == b'm'
    then some (n, s)
    else if ltb x b'0'
    then none
    else if ltb b'9' x
    then none
    else more

unfoldable pub read_escape : List ℕ → Option (ℕ × List ℕ)
unfolding read_number
read_escape (x ∷ y ∷ s) = if x == 27 then (if y == b'[' then read_number 0 s else none) else none
read_escape s = none

-- A terminal reads back the number of the style, and the text that follows it.
pub read_escape-escape :
    (s : Style) (rest : List ℕ) → read_escape (escape s ++ rest) ≡ some (style_code s, rest)
unfolding read_escape read_number escape
read_escape-escape default rest = refl
read_escape-escape bold rest = refl
read_escape-escape half_bright rest = refl
read_escape-escape italic rest = refl
read_escape-escape underline rest = refl
read_escape-escape blink rest = refl
read_escape-escape rapid_blink rest = refl
read_escape-escape reversed rest = refl
read_escape-escape concealed rest = refl
read_escape-escape strikethrough rest = refl
read_escape-escape (fore c) rest =
    elim c as (λ c. read_escape (escape (fore c) ++ rest) ≡ some (style_code (fore c), rest)) [
      | black ↦ refl
      | red ↦ refl
      | green ↦ refl
      | brown ↦ refl
      | blue ↦ refl
      | magenta ↦ refl
      | cyan ↦ refl
      | white ↦ refl
    ]
read_escape-escape (back c) rest =
    elim c as (λ c. read_escape (escape (back c) ++ rest) ≡ some (style_code (back c), rest)) [
      | black ↦ refl
      | red ↦ refl
      | green ↦ refl
      | brown ↦ refl
      | blue ↦ refl
      | magenta ↦ refl
      | cyan ↦ refl
      | white ↦ refl
    ]
