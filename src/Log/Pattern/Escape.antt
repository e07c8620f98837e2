-- ===== src/Log/Pattern/Escape.antt =====
-- A doubled percent sign in a pattern.
use custom_net_framework.Prelude.{
  ℕ, suc, ◌≡◌, Bool, some, List, [], ◌∷◌, length, refl, ◌∙◌, arith, Bytes, codes,
}
use custom_net_framework.Log.Pattern.{
  Piece, text, string, LogFormatter, next_move, take_piece, read_pieces, make_items, make_item,
  new_formatter,
}
use custom_net_framework.Log.Pattern.RoundTrip.{read_pieces-take}
use custom_net_framework.Log.Pattern.Total.{read_pieces-total, next_move-length}

doubled_step :
    (rest : Bytes) (fuel : ℕ)
    → read_pieces (suc fuel) [] (b'%' ∷ b'%' ∷ rest) ≡ read_pieces fuel (b'%' ∷ []) (b'%' ∷ rest)
unfolding read_pieces next_move
doubled_step rest fuel = refl

doubled_formatter :
    (rest : Bytes) (f : LogFormatter) (ps : List Piece) (error : Bool)
    → read_pieces (suc (suc (length rest))) [] (b'%' ∷ rest) ≡ some (ps, error)
    → read_pieces (suc (suc (suc (length rest)))) [] (b'%' ∷ b'%' ∷ rest)
      ≡ some (text (b'%' ∷ []) ∷ ps, error)
    → new_formatter (b'%' ∷ rest) ≡ some f
    → new_formatter (b'%' ∷ b'%' ∷ rest)
      ≡ some (record {
        pattern = b'%' ∷ b'%' ∷ rest;
        items = string (codes "%") ∷ f.items;
        is_error = f.is_error;
      })
unfolding new_formatter make_items make_item
doubled_formatter rest f ps error one two made = ground (arith, one, two, made)

-- If a percent sign begins a directive, a second one before it is printed and escapes nothing: the
-- items are a single percent sign and those of the pattern without it, and so is the error.
pub percent_escape :
    (rest rest' : Bytes) (p : Piece) (f : LogFormatter)
    → next_move b'%' rest ≡ take_piece p rest'
    → new_formatter (b'%' ∷ rest) ≡ some f
    → new_formatter (b'%' ∷ b'%' ∷ rest)
      ≡ some (record {
        pattern = b'%' ∷ b'%' ∷ rest;
        items = string (codes "%") ∷ f.items;
        is_error = f.is_error;
      })
percent_escape rest rest' p f e made =
    let ((ps, error), r) =
      read_pieces-total (suc (length rest)) [] rest'
        (omega (arith, next_move-length b'%' rest p rest' e)) in
    let one : read_pieces (suc (suc (length rest))) [] (b'%' ∷ rest) ≡ some (p ∷ ps, error) =
      read_pieces-take (suc (length rest)) [] b'%' rest p rest' ps error e r in
    let two : read_pieces (suc (suc (length rest))) (b'%' ∷ []) (b'%' ∷ rest)
        ≡ some (text (b'%' ∷ []) ∷ p ∷ ps, error) =
      read_pieces-take (suc (length rest)) (b'%' ∷ []) b'%' rest p rest' ps error e r in
    doubled_formatter rest f (p ∷ ps) error one (doubled_step rest (suc (suc (length rest))) ∙ two)
      made
