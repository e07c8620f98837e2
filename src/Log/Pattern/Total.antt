-- ===== src/Log/Pattern/Total.antt =====
-- The loops of `LogFormatter::init` end.
use custom_net_framework.Prelude.{
  ℕ, zero, suc, ◌<◌, ◌≤◌, ◌≡◌, Bool, true, false, not, ◌&&◌, some, List, [], ◌∷◌, ◌++◌, ◌==◌,
  length, refl, arith, Bool-cases, Option-cases, inl, inr, Bytes, codes, is_alpha, ◌||◌,
}
use custom_net_framework.Log.Pattern.{
  Piece, scan_format, scan_name, next_move, Move, keep, take_piece, broken, read_pieces, flush,
  text, LogFormatter, new_formatter, make_items,
}

scan_format-length :
    (fmt s fmt' rest : Bytes) → scan_format fmt s ≡ some (fmt', rest) → length rest < length s
unfolding scan_format
scan_format-length fmt [] fmt' rest e = cc
scan_format-length fmt (c ∷ s) fmt' rest e = elim (Bool-cases (c == b'}')) [
  | inl y ↦ ground (arith, y, e)
  | inr n ↦ ground (arith, n, e, scan_format-length (fmt ++ c ∷ []) s fmt' rest)
]

scan_name-length :
    (name s : Bytes) (p : Piece) (rest : Bytes)
    → scan_name name s ≡ some (p, rest)
    → length rest ≤ length s
unfolding scan_name
scan_name-length name [] p rest e = ground (arith, e)
scan_name-length name (c ∷ s) p rest e =
    elim (Bool-cases (not (is_alpha c) && not (c == b'{') && not (c == b'}'))) [
      | inl y ↦ ground (arith, y, e)
      | inr n ↦ elim (Bool-cases (c == b'{')) [
        | inl b ↦ elim (Option-cases (scan_format [] s)) [
          | inl o ↦ ground (arith, n, b, o, e)
          | inr ((fmt, rest'), f) ↦ ground (arith, n, b, f, e, scan_format-length [] s fmt rest')
        ]
        | inr m ↦ ground (arith, n, m, e, scan_name-length (name ++ c ∷ []) s p rest)
      ]
    ]

pub next_move-length :
    (c : ℕ) (s : Bytes) (p : Piece) (rest : Bytes)
    → next_move c s ≡ take_piece p rest
    → length rest ≤ length s
unfolding next_move
next_move-length c s p rest e = elim (Option-cases (scan_name [] s)) [
  | inl n ↦ absurd (ground (arith, n, e))
  | inr ((q, rest'), f) ↦ ground (arith, f, e, scan_name-length [] s q rest')
]

-- A unit of fuel for each byte that is left, and one, is enough.
pub read_pieces-total :
    (fuel : ℕ) (nstr s : Bytes)
    → length s < fuel
    → (r : List Piece × Bool) × (read_pieces fuel nstr s ≡ some r)
unfolding read_pieces
read_pieces-total zero nstr s l = absurd (omega arith)
read_pieces-total (suc fuel) nstr [] l = ((flush nstr, false), refl)
read_pieces-total (suc fuel) nstr (c ∷ s) l =
    split (λ n t h. read_pieces-total fuel n t h) (next_move c s) refl
  where
    split :
        ((n t : Bytes)
          → length t < fuel
          → (r : List Piece × Bool) × (read_pieces fuel n t ≡ some r))
        → (m : Move) → next_move c s ≡ m
        → (r : List Piece × Bool) × (read_pieces (suc fuel) nstr (c ∷ s) ≡ some r)
    split more (keep b) e =
        let (r, f) = more (nstr ++ b ∷ []) s (omega arith) in (r, ground (arith, e, f))
    split more (take_piece p rest) e =
        let (r, f) = more [] rest (omega (arith, next_move-length c s p rest e)) in
        (((flush nstr ++ p ∷ []) ++ r.0, r.1), ground (arith, e, f))
    split more broken e =
        let (r, f) = more nstr s (omega arith) in
        ((text (codes "<<pattern_error>>") ∷ r.0, true), ground (arith, e, f))

-- More fuel makes no difference.
pub read_pieces-fuel :
    (fuel fuel' : ℕ) (nstr s : Bytes)
    → length s < fuel
    → length s < fuel'
    → read_pieces fuel nstr s ≡ read_pieces fuel' nstr s
unfolding read_pieces
read_pieces-fuel zero fuel' nstr s l m = absurd (omega arith)
read_pieces-fuel (suc fuel) zero nstr s l m = absurd (omega arith)
read_pieces-fuel (suc fuel) (suc fuel') nstr [] l m = refl
read_pieces-fuel (suc fuel) (suc fuel') nstr (c ∷ s) l m =
    split (λ n t h k. read_pieces-fuel fuel fuel' n t h k) (next_move c s) refl
  where
    split :
        ((n t : Bytes)
          → length t < fuel
          → length t < fuel'
          → read_pieces fuel n t ≡ read_pieces fuel' n t)
        → (o : Move) → next_move c s ≡ o
        → read_pieces (suc fuel) nstr (c ∷ s) ≡ read_pieces (suc fuel') nstr (c ∷ s)
    split more (keep b) e = ground (arith, e, more (nstr ++ b ∷ []) s)
    split more (take_piece p rest) e = ground (arith, e, next_move-length c s p rest, more [] rest)
    split more broken e = ground (arith, e, more nstr s)

-- The constructor of LogFormatter ends on every pattern: it yields a formatter of this pattern, the
-- one that the loops make with any fuel that exceeds the pattern's length.
pub new_formatter-total :
    (pattern : Bytes) (fuel : ℕ)
    → length pattern < fuel
    → (pieces : List Piece) × (e : Bool) × (f : LogFormatter) × (read_pieces fuel [] pattern
        ≡ some (pieces, e))
      × (new_formatter pattern ≡ some f)
      × (f.pattern ≡ pattern)
      × (f.items ≡ (make_items pieces).0)
      × (f.is_error ≡ (e || (make_items pieces).1))
unfolding new_formatter
new_formatter-total pattern fuel l =
    let ((pieces, e), r) = read_pieces-total fuel [] pattern l in
    (
      pieces,
      e,
      record {
        pattern = pattern;
        items = (make_items pieces).0;
        is_error = e || (make_items pieces).1;
      },
      r,
      ground (arith, r, read_pieces-fuel fuel (suc (length pattern)) [] pattern l),
      refl,
      refl,
      refl,
    )
