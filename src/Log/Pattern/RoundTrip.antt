-- ===== src/Log/Pattern/RoundTrip.antt =====
-- What is printed as a pattern is read back.
use mathlib.Core.List.{append-nil, append_assoc}
use custom_net_framework.Prelude.{
  ℕ, zero, suc, ◌+◌, ◌-◌, ◌<◌, ◌≡◌, Bool, true, false, ◌||◌, some, List, [], ◌∷◌, ◌++◌, ◌==◌,
  length, refl, arith, Bool-cases, inl, inr, Bytes, is_alpha, is_empty, if◌then◌else◌, All, ◌∙◌,
  length-append,
}
use custom_net_framework.Log.Pattern.{
  Piece, text, directive, scan_format, scan_name, next_move, take_piece, read_pieces, flush,
  new_formatter, make_items,
}

abbrev pub show_format : Bytes → Bytes
show_format fmt = if is_empty fmt then [] else b'{' ∷ (fmt ++ b'}' ∷ [])

-- A list of pieces as a pattern.
unfoldable pub show : List Piece → Bytes
show [] = []
show (text s ∷ ps) = s ++ show ps
show (directive name fmt ∷ ps) = b'%' ∷ (name ++ (show_format fmt ++ show ps))

abbrev pub is_name_byte : ℕ → Bool
is_name_byte c = is_alpha c || c == b'{' || c == b'}'

abbrev pub starts_name : Bytes → Bool
starts_name [] = false
starts_name (c ∷ s) = is_name_byte c

-- The pieces that a pattern can have, as they stand: a text is not empty, has no percent sign and does
-- not follow a text; a name is letters, a format has no closing brace, and what follows a directive
-- with no format cannot be taken for a part of it.
unfoldable pub IsPattern : Bool → List Piece → Type 0
unfolding show
IsPattern after_text [] = Unit
IsPattern after_text (text s ∷ ps) =
    (after_text ≡ false)
    × (is_empty s ≡ false)
    × All (λ c. (c == b'%') ≡ false) s
    × IsPattern true ps
IsPattern after_text (directive name fmt ∷ ps) =
    (is_empty name ≡ false)
    × All (λ c. is_alpha c ≡ true) name
    × All (λ c. (c == b'}') ≡ false) fmt
    × (starts_name (show_format fmt ++ show ps) ≡ true → is_empty fmt ≡ false)
    × IsPattern false ps

scan_format-show :
    (acc fmt rest : Bytes)
    → All (λ c. (c == b'}') ≡ false) fmt
    → scan_format acc (fmt ++ b'}' ∷ rest) ≡ some (acc ++ fmt, rest)
unfolding scan_format
scan_format-show acc [] rest h = ground (arith, append-nil acc)
scan_format-show acc (c ∷ fmt) rest h =
    ground
      (arith, h.0, scan_format-show (acc ++ c ∷ []) fmt rest h.1, append_assoc acc (c ∷ []) fmt)

-- What follows the letters of a name.
scan_name-letters :
    (acc name rest : Bytes)
    → All (λ c. is_alpha c ≡ true) name
    → scan_name acc (name ++ rest) ≡ scan_name (acc ++ name) rest
unfolding scan_name
scan_name-letters acc [] rest h = rw (append-nil acc) refl
scan_name-letters acc (c ∷ name) rest h =
    ground
      (arith, h.0, scan_name-letters (acc ++ c ∷ []) name rest h.1, append_assoc acc (c ∷ []) name)

scan_name_end :
    (name fmt rest : Bytes)
    → All (λ c. (c == b'}') ≡ false) fmt
    → (starts_name (show_format fmt ++ rest) ≡ true → is_empty fmt ≡ false)
    → scan_name name (show_format fmt ++ rest) ≡ some (directive name fmt, rest)
unfolding scan_name
scan_name_end name [] [] h n = refl
scan_name_end name [] (c ∷ rest) h n = elim (Bool-cases (is_name_byte c)) [
  | inl y ↦ absurd (ground (arith, n y))
  | inr o ↦ ground (arith, o)
]
scan_name_end name (c ∷ fmt) rest h n =
    ground (arith, append_assoc (c ∷ fmt) (b'}' ∷ []) rest, scan_format-show [] (c ∷ fmt) rest h)

next_move-show :
    (name fmt rest : Bytes)
    → is_empty name ≡ false
    → All (λ c. is_alpha c ≡ true) name
    → All (λ c. (c == b'}') ≡ false) fmt
    → (starts_name (show_format fmt ++ rest) ≡ true → is_empty fmt ≡ false)
    → next_move b'%' (name ++ (show_format fmt ++ rest)) ≡ take_piece (directive name fmt) rest
unfolding next_move
next_move-show [] fmt rest e a h n = cc
next_move-show (c ∷ name) fmt rest e a h n = ground (
  arith,
  a.0,
  scan_name-letters [] (c ∷ name) (show_format fmt ++ rest) a,
  scan_name_end (c ∷ name) fmt rest h n,
)

read_pieces-text :
    (s : Bytes) (fuel fuel' : ℕ) (nstr rest : Bytes)
    → fuel ≡ length s + fuel'
    → All (λ c. (c == b'%') ≡ false) s
    → read_pieces fuel nstr (s ++ rest) ≡ read_pieces fuel' (nstr ++ s) rest
unfolding read_pieces next_move
read_pieces-text [] fuel fuel' nstr rest e h = ground (arith, append-nil nstr)
read_pieces-text (c ∷ s) zero fuel' nstr rest e h = absurd (omega arith)
read_pieces-text (c ∷ s) (suc fuel) fuel' nstr rest e h = ground (
  arith,
  h.0,
  read_pieces-text s fuel fuel' (nstr ++ c ∷ []) rest (omega arith) h.1,
  append_assoc nstr (c ∷ []) s,
)

pub read_pieces-take :
    (fuel : ℕ) (nstr : Bytes) (c : ℕ) (s : Bytes) (p : Piece) (rest : Bytes) (ps : List Piece)
    (error : Bool)
    → next_move c s ≡ take_piece p rest
    → read_pieces fuel [] rest ≡ some (ps, error)
    → read_pieces (suc fuel) nstr (c ∷ s) ≡ some (flush nstr ++ (p ∷ ps), error)
unfolding read_pieces
read_pieces-take fuel nstr c s p rest ps error e f =
    ground (arith, e, f, append_assoc (flush nstr) (p ∷ []) ps)

read_pieces-show :
    (after_text : Bool) (ps : List Piece) (nstr : Bytes) (fuel : ℕ)
    → IsPattern after_text ps
    → (after_text ≡ false → nstr ≡ [])
    → length (show ps) < fuel
    → read_pieces fuel nstr (show ps) ≡ some (flush nstr ++ ps, false)
unfolding show IsPattern
read_pieces-show b [] nstr zero v start l = absurd (omega arith)
read_pieces-show b [] nstr (suc fuel) v start l =
    unfold read_pieces in ground (arith, append-nil (flush nstr))
read_pieces-show b (text s ∷ ps) nstr fuel v start l =
    let k : length (show ps) < fuel - length s = omega (arith, length-append s (show ps)) in
    read_pieces-text s fuel (fuel - length s) nstr (show ps)
      (omega (arith, length-append s (show ps))) v.2
    ∙ ground (arith, start v.0, read_pieces-show true ps s (fuel - length s) v.3 (λ e. cc) k, v.1)
read_pieces-show b (directive name fmt ∷ ps) nstr zero v start l = absurd (omega arith)
read_pieces-show b (directive name fmt ∷ ps) nstr (suc fuel) v start l =
    let k : length (show ps) < fuel = omega (
      arith,
      length-append name (show_format fmt ++ show ps),
      length-append (show_format fmt) (show ps),
    ) in
    read_pieces-take fuel nstr b'%' (name ++ (show_format fmt ++ show ps)) (directive name fmt)
      (show ps) ps false (next_move-show name fmt (show ps) v.0 v.1 v.2 v.3)
      (read_pieces-show false ps [] fuel v.4 (λ e. refl) k)

-- For a list of pieces that a pattern can have, in which a text is not empty, has no percent sign
-- and does not follow a text, a name is letters and not empty, a format has no closing brace, and
-- a directive without a format is not followed by what can be part of it: the constructor of
-- LogFormatter reads the printed list back. Its items are those of the pieces, and it is in error
-- just if a directive has a name that it does not know.
pub new_formatter-show :
    (ps : List Piece)
    → IsPattern false ps
    → new_formatter (show ps)
      ≡ some (record { pattern = show ps; items = (make_items ps).0; is_error = (make_items ps).1 })
unfolding new_formatter
new_formatter-show ps v =
    ground
      (arith, read_pieces-show false ps [] (suc (length (show ps))) v (λ e. refl) (omega arith))
