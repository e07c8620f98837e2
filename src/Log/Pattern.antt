-- ===== src/Log/Pattern.antt =====
-- `LogFormatter`: a pattern is read into format items, and these print an event.
pub mod Total
pub mod RoundTrip
pub mod Escape
mod Tests
use custom_net_framework.Prelude.{
  ℕ, zero, suc, ◌≡◌, Bool, true, false, not, ◌&&◌, ◌||◌, Option, none, some, List, [], ◌∷◌, ◌++◌,
  map, ◌==◌, if◌then◌else◌, length, is_empty, Bytes, codes, ◌===◌, is_alpha,
}
use custom_net_framework.Log.Level.{Level, to_string}

-- An entry of `vec` in `init`: type 0, and type 1 with its name and its format.
pub data Piece : Type 0 where
  text : Bytes → Piece
  directive : (name fmt : Bytes) → Piece

-- The inner loop in `fmt_status` 1: up to the closing brace. `none`: there is none.
pub scan_format : Bytes → Bytes → Option (Bytes × Bytes)
scan_format fmt [] = none
scan_format fmt (c ∷ rest) =
    let more = scan_format (fmt ++ c ∷ []) rest in if c == b'}' then some (fmt, rest) else more

-- The inner loop in `fmt_status` 0, with the name read so far: the directive, and the rest of the
-- pattern after it.
pub scan_name : Bytes → Bytes → Option (Piece × Bytes)
unfolding scan_format
scan_name name [] = some (directive name [], [])
scan_name name (c ∷ rest) =
    let more = scan_name (name ++ c ∷ []) rest in
    if not (is_alpha c) && not (c == b'{') && not (c == b'}')
    then some (directive name [], c ∷ rest)
    else if c == b'{'
    then elim (scan_format [] rest) [
      | none ↦ none
      | some (fmt, rest') ↦ some (directive name fmt, rest')
    ]
    else more

abbrev pub starts_percent : Bytes → Bool
starts_percent [] = false
starts_percent (c ∷ rest) = c == b'%'

-- What the outer loop does at a character: it keeps one, takes a directive, or meets an error.
pub data Move : Type 0 where
  keep : ℕ → Move
  take_piece : Piece → Bytes → Move
  broken : Move

pub next_move : ℕ → Bytes → Move
unfolding scan_name
next_move c rest =
    if not (c == b'%')
    then keep c
    else if starts_percent rest
    then keep b'%'
    else elim (scan_name [] rest) [ none ↦ broken | some (p, rest') ↦ take_piece p rest' ]

-- `if (!nstr.empty()) vec.push_back(...)`.
abbrev pub flush : Bytes → List Piece
flush nstr = if is_empty nstr then [] else text nstr ∷ []

abbrev pub before : List Piece → Bool → Option (List Piece × Bool) → Option (List Piece × Bool)
before ps error none = none
before ps error (some (qs, e)) = some (ps ++ qs, error || e)

-- The outer loop: `vec` and `m_error`. A unit of fuel for each turn; `none`: it ran out.
pub read_pieces : ℕ → Bytes → Bytes → Option (List Piece × Bool)
unfolding next_move
read_pieces zero nstr rest = none
read_pieces (suc fuel) nstr [] = some (flush nstr, false)
read_pieces (suc fuel) nstr (c ∷ rest) = elim (next_move c rest) [
  | keep b ↦ read_pieces fuel (nstr ++ b ∷ []) rest
  | take_piece p rest' ↦ before (flush nstr ++ p ∷ []) false (read_pieces fuel [] rest')
  | broken ↦ before (text (codes "<<pattern_error>>") ∷ []) true (read_pieces fuel nstr rest)
]

-- The classes derived from `LogFormatter::FormatItem`.
pub data FormatItem : Type 0 where
  message level elapse name thread_id new_line filename line tab fiber_id thread_name : FormatItem
  date_time : (format : Bytes) → FormatItem
  string : (str : Bytes) → FormatItem

-- The constructor of DateTimeFormatItem replaces an empty format.
pub new_date_time : Bytes → FormatItem
new_date_time fmt = date_time (if is_empty fmt then codes "%Y-%m-%d %H:%M:%S" else fmt)

-- `s_format_items`.
pub find_item : Bytes → Bytes → Option FormatItem
unfolding new_date_time
find_item str fmt =
    if str === codes "m"
    then some message
    else if str === codes "p"
    then some level
    else if str === codes "r"
    then some elapse
    else if str === codes "c"
    then some name
    else if str === codes "t"
    then some thread_id
    else if str === codes "n"
    then some new_line
    else if str === codes "d"
    then some (new_date_time fmt)
    else if str === codes "f"
    then some filename
    else if str === codes "l"
    then some line
    else if str === codes "T"
    then some tab
    else if str === codes "F"
    then some fiber_id
    else if str === codes "N"
    then some thread_name
    else none

-- One turn of the last loop of `init`: the item, and whether `m_error` is set.
pub make_item : Piece → FormatItem × Bool
unfolding find_item
make_item (text str) = (string str, false)
make_item (directive str fmt) = elim (find_item str fmt) [
  | none ↦ (string (codes "<<error_format %" ++ (str ++ codes ">>")), true)
  | some item ↦ (item, false)
]

pub make_items : List Piece → List FormatItem × Bool
unfolding make_item
make_items [] = ([], false)
make_items (p ∷ ps) =
    let (item, e) = make_item p in let (items, e') = make_items ps in (item ∷ items, e || e')

pub record LogFormatter : Type 0 where
  pub pattern : Bytes
  pub items : List FormatItem
  pub is_error : Bool

-- `LogFormatter::LogFormatter`, which calls `init`.
pub new_formatter : Bytes → Option LogFormatter
unfolding read_pieces make_items
new_formatter pattern = elim (read_pieces (suc (length pattern)) [] pattern) [
  | none ↦ none
  | some (pieces, e) ↦
      let made = make_items pieces in
      some (record { pattern = pattern; items = made.0; is_error = e || made.1 })
]

-- `LogEvent`, with the name of its logger.
pub record LogEvent : Type 0 where
  pub file : Bytes
  pub line_number : ℕ
  pub elapsed : ℕ
  pub thread : ℕ
  pub fiber : ℕ
  pub time : ℕ
  pub thread_label : Bytes
  pub content : Bytes
  pub logger_name : Bytes

-- How a stream prints a number, and what localtime_r and strftime make of a format and a time.
pub record Printer : Type 0 where
  pub number : ℕ → Bytes
  pub time_text : Bytes → ℕ → Bytes

module _ (P : Printer) where
  -- `FormatItem::format` of each class.
  unfoldable pub print_item : Level → LogEvent → FormatItem → Bytes
  print_item lv e message = e.content
  print_item lv e level = to_string lv
  print_item lv e elapse = P.number e.elapsed
  print_item lv e name = e.logger_name
  print_item lv e thread_id = P.number e.thread
  print_item lv e new_line = b'\n' ∷ []
  print_item lv e filename = e.file
  print_item lv e line = P.number e.line_number
  print_item lv e tab = b'\t' ∷ []
  print_item lv e fiber_id = P.number e.fiber
  print_item lv e thread_name = e.thread_label
  print_item lv e (date_time format) = P.time_text format e.time
  print_item lv e (string str) = str

  -- `LogFormatter::format`.
  unfoldable pub print_items : List FormatItem → Level → LogEvent → Bytes
  unfolding print_item
  print_items [] lv e = []
  print_items (i ∷ items) lv e = print_item lv e i ++ print_items items lv e
