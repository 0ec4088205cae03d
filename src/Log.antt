-- ===== src/Log.antt =====
-- include/boost/cmt/log/log.hpp: the text of a message. A text is the list of its bytes. What
-- Boost.Format makes of the arguments is an argument, and so is the line number as a stream prints it.
pub mod Console
pub mod Names
use boost_cmt.Base.{
  ℕ, zero, suc, ◌+◌, ◌-◌, List, [], ◌∷◌, ◌++◌, Option, none, some, Bool, true, false, if◌then◌else◌,
  ◌==◌, drop, length,
}

-- `file_name.rfind( c )`
unfoldable pub rfind : ℕ → List ℕ → Option ℕ
rfind c [] = none
rfind c (x ∷ s) = elim (rfind c s) [
  | some i ↦ some (suc i)
  | none ↦ if x == c then some 0 else none
]

-- `npos + 1` is 0.
unfoldable pub short_name : List ℕ → List ℕ
unfolding rfind
short_name s = elim (rfind b'/' s) [ some i ↦ drop (suc i) s | none ↦ s ]

-- A text padded on the right, `std::left << std::setw( n )`.
unfoldable pub setw : ℕ → List ℕ → List ℕ
setw zero s = s
setw (suc n) [] = b' ' ∷ setw n []
setw (suc n) (x ∷ s) = x ∷ setw n s

unfoldable pub log : (reset : List ℕ) → (color name file line method text : List ℕ) → List ℕ
unfolding short_name setw
log reset color name file line method text =
    color
    ++ (setw 10 name
        ++ (b' '
            ∷ (short_name file
                ++ (b':'
                    ∷ (line
                        ++ (b' ' ∷ (method ++ (b']' ∷ b' ' ∷ (text ++ (reset ++ (10 ∷ [])))))))))))

-- How the formatting of the arguments of a message ends.
pub data Formatted : Type 0 where
  text_of : List ℕ → Formatted
  -- A boost::exception or std::exception, with what is formatted of it.
  threw_known : List ℕ → Formatted
  threw_unknown : Formatted

abbrev pub invalid_logs : List ℕ
invalid_logs =
    b'I' ∷ b'n' ∷ b'v' ∷ b'a' ∷ b'l' ∷ b'i' ∷ b'd' ∷ b' ' ∷ b'l' ∷ b'o' ∷ b'g' ∷ b's' ∷ []

-- dlog, slog, elog and wlog, which differ in the color. `unknown` is the text of the last handler.
unfoldable pub log_message :
    (reset red color name file line method unknown : List ℕ) → Formatted → List ℕ
unfolding log
log_message reset red color name file line method unknown (text_of t) =
    log reset color name file line method t
log_message reset red color name file line method unknown (threw_known t) =
    log reset red name file line method (invalid_logs ++ (b':' ∷ b' ' ∷ t))
log_message reset red color name file line method unknown threw_unknown =
    log reset red name file line method unknown
