-- ===== src/Log/Pattern/Tests.antt =====
-- Patterns of the repository, and the examples of the theorems.
use custom_net_framework.Prelude.{
  ◌≡◌, Bool, true, false, ◌||◌, Option, none, some, List, [], ◌∷◌, refl, arith, Bytes, codes, ◌===◌,
}
use custom_net_framework.Log.Pattern.{
  Piece, text, directive, FormatItem, message, level, tab, new_line, date_time, string,
  LogFormatter, new_formatter, read_pieces, make_items,
}
use custom_net_framework.Log.Pattern.Total.{new_formatter-total}
use custom_net_framework.Log.Pattern.RoundTrip.{show, IsPattern, new_formatter-show}
use custom_net_framework.Log.Pattern.Escape.{percent_escape}

abbrev pieces : List Piece
pieces =
    directive (codes "d") (codes "%H:%M")
    ∷ directive (codes "T") []
    ∷ text (codes "[")
    ∷ directive (codes "p") []
    ∷ text (codes "]")
    ∷ directive (codes "m") []
    ∷ []

shown : show pieces ≡ codes "%d{%H:%M}%T[%p]%m"
unfolding show
shown = refl

items_of : Bytes → Option (List FormatItem × Bool)
unfolding new_formatter ◌===◌
items_of pattern = elim (new_formatter pattern) [
  | none ↦ none
  | some f ↦ some (f.items, f.is_error)
]

time_pattern :
    items_of (codes "%d{%H:%M}%T[%p]%m%n")
    ≡ some (
      date_time (codes "%H:%M")
          ∷ tab
          ∷ string (codes "[")
          ∷ level
          ∷ string (codes "]")
          ∷ message
          ∷ new_line
          ∷ [],
      false,
    )
unfolding items_of ◌===◌
time_pattern = refl

-- An unclosed brace: the error stands before the text that came before it.
unclosed_pattern :
    items_of (codes "a%d{%m")
    ≡ some (string (codes "<<pattern_error>>") ∷ string (codes "ad{") ∷ message ∷ [], true)
unfolding items_of ◌===◌
unclosed_pattern = refl

new_formatter-total_example :
    (ps : List Piece) × (e : Bool) × (f : LogFormatter) × (read_pieces 9 [] (codes "%d{%Y}%m")
      ≡ some (ps, e))
    × (new_formatter (codes "%d{%Y}%m") ≡ some f)
    × (f.pattern ≡ codes "%d{%Y}%m")
    × (f.items ≡ (make_items ps).0)
    × (f.is_error ≡ (e || (make_items ps).1))
new_formatter-total_example = new_formatter-total (codes "%d{%Y}%m") 9 (omega arith)

pieces-IsPattern : IsPattern false pieces
unfolding IsPattern show
pieces-IsPattern = ground arith

new_formatter-show_example :
    new_formatter (show pieces)
    ≡ some (record {
      pattern = show pieces;
      items = (make_items pieces).0;
      is_error = (make_items pieces).1;
    })
new_formatter-show_example = new_formatter-show pieces pieces-IsPattern

-- "%%m" prints a percent sign and the message.
percent_escape_example :
    new_formatter (codes "%%m")
    ≡ some (record {
      pattern = codes "%%m";
      items = string (codes "%") ∷ message ∷ [];
      is_error = false;
    })
unfolding new_formatter ◌===◌
percent_escape_example =
    percent_escape (codes "m") [] (directive (codes "m") [])
      (record { pattern = codes "%m"; items = message ∷ []; is_error = false }) refl refl
