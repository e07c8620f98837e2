-- ===== src/Log/FileAppender.antt =====
-- `FileLogAppender`, with the contents of its file: std::ofstream::open in its default mode
-- truncates the file, and what is written to a stream that is not open is lost.
mod Tests
use custom_net_framework.Prelude.{
  ℕ, zero, ◌≡◌, ◌≢◌, Bool, true, false, not, List, [], ◌∷◌, ◌++◌, ◌==◌, ==_refl, ==_ne, leb,
  if◌then◌else◌, is_empty, filter, Bytes, arith, refl, sym, ap, ◌∙◌, inl, inr, Bool-cases,
}
use custom_net_framework.Log.Level.{Level, debug}
use custom_net_framework.Log.Pattern.{LogFormatter, LogEvent, Printer, print_items}

-- `is_open` is the state of `m_filestream`, `written` the contents of the file.
pub record FileLogAppender : Type 0 where
  pub level : Level
  pub formatter : LogFormatter
  pub is_open : Bool
  pub written : Bytes
  pub last_time : ℕ

-- `FileLogAppender::reopen`: the file can be opened or not.
pub reopen : FileLogAppender → Bool → FileLogAppender
reopen a opens = record a { is_open = opens; written = if opens then [] else a.written }

-- The constructor, on a file with some contents, and with the formatter that it is given.
pub new_file_appender : LogFormatter → Bytes → Bool → FileLogAppender
unfolding reopen
new_file_appender f contents opens =
    reopen
      (record { level = debug; formatter = f; is_open = false; written = contents; last_time = 0 })
      opens

module _ (P : Printer) where
  -- `FileLogAppender::log`, at the second `now`.
  pub log_file : FileLogAppender → ℕ → Bool → Level → LogEvent → FileLogAppender
  unfolding reopen
  log_file a now opens lv e =
      let a' = if now == a.last_time then a else record (reopen a opens) { last_time = now } in
      if leb a.level lv
      then (if a'.is_open
          then record a' { written = a'.written ++ print_items P a.formatter.items lv e }
          else a')
      else a

  -- The events of one second, one after another.
  abbrev pub log_second : FileLogAppender → ℕ → List (Level × LogEvent) → FileLogAppender
  log_second a now [] = a
  log_second a now ((lv, e) ∷ es) = log_second (log_file a now true lv e) now es

  -- The lines of the events that pass the level.
  abbrev pub lines : Level → LogFormatter → List (Level × LogEvent) → Bytes
  lines level f [] = []
  lines level f ((lv, e) ∷ es) =
      if leb level lv then print_items P f.items lv e ++ lines level f es else lines level f es

  abbrev pub passing : Level → List (Level × LogEvent) → List (Level × LogEvent)
  passing level es = filter (λ x. leb level x.0) es

  append_assoc : (xs ys zs : Bytes) → xs ++ ys ++ zs ≡ xs ++ (ys ++ zs)
  append_assoc [] ys zs = refl
  append_assoc (x ∷ xs) ys zs = ap (λ l. x ∷ l) (append_assoc xs ys zs)

  append_nil : (xs : Bytes) → xs ++ [] ≡ xs
  append_nil [] = refl
  append_nil (x ∷ xs) = ap (λ l. x ∷ l) (append_nil xs)

  skipped :
      (a : FileLogAppender) (now : ℕ) (lv : Level) (e : LogEvent)
      → leb a.level lv ≡ false
      → log_file a now true lv e ≡ a
  unfolding log_file
  skipped a now lv e n = rw n refl

  appended :
      (a : FileLogAppender) (lv : Level) (e : LogEvent)
      → a.is_open ≡ true
      → leb a.level lv ≡ true
      → log_file a a.last_time true lv e
        ≡ record a { written = a.written ++ print_items P a.formatter.items lv e }
  unfolding log_file
  appended a lv e o y = rw (y, ==_refl a.last_time, o) refl

  lines_pass :
      (level : Level) (f : LogFormatter) (lv : Level) (e : LogEvent) (es : List (Level × LogEvent))
      → leb level lv ≡ true
      → lines level f ((lv, e) ∷ es) ≡ print_items P f.items lv e ++ lines level f es
  lines_pass level f lv e es y = rw y refl

  same_second :
      (a : FileLogAppender) (es : List (Level × LogEvent))
      → a.is_open ≡ true
      → (log_second a a.last_time es).written ≡ a.written ++ lines a.level a.formatter es
  same_second a [] o = sym (append_nil a.written)
  same_second a ((lv, e) ∷ es) o =
      let x = print_items P a.formatter.items lv e in
      let more = same_second (record a { written = a.written ++ x }) es o in
      let less = same_second a es o in
      elim (Bool-cases (leb a.level lv)) [
        | inl y ↦
            ap (λ b. (log_second b a.last_time es).written) (appended a lv e o y)
            ∙ more
            ∙ append_assoc a.written x (lines a.level a.formatter es)
            ∙ ap (λ l. a.written ++ l) (sym (lines_pass a.level a.formatter lv e es y))
        | inr n ↦
            rw n (
              ap (λ b. (log_second b a.last_time es).written) (skipped a a.last_time lv e n) ∙ less)
      ]

  reopened :
      (a : FileLogAppender) (now : ℕ) (lv : Level) (e : LogEvent)
      → now ≢ a.last_time
      → leb a.level lv ≡ true
      → log_file a now true lv e ≡ record a {
        is_open = true;
        last_time = now;
        written = print_items P a.formatter.items lv e;
      }
  unfolding log_file reopen
  reopened a now lv e d y = rw (y, ==_ne now a.last_time d) refl

  -- When the events of one second are logged after a different second, and the file can be opened
  -- each time: if one passes the level, the file then has the lines of those of that second's
  -- events that pass and nothing else, so that the lines of all earlier seconds are gone; if none
  -- passes, the file is as it was.
  pub log_second_lem :
      (a : FileLogAppender) (now : ℕ) (es : List (Level × LogEvent))
      → now ≢ a.last_time
      → (log_second a now es).written
        ≡ (if is_empty (passing a.level es) then a.written else lines a.level a.formatter es)
  log_second_lem a now [] d = refl
  log_second_lem a now ((lv, e) ∷ es) d =
      let more =
        same_second
          (record a {
            is_open = true;
            last_time = now;
            written = print_items P a.formatter.items lv e;
          })
          es refl in
      let less = log_second_lem a now es d in
      elim (Bool-cases (leb a.level lv)) [
        | inl y ↦ rw y (ap (λ b. (log_second b now es).written) (reopened a now lv e d y) ∙ more)
        | inr n ↦ rw n (ap (λ b. (log_second b now es).written) (skipped a now lv e n) ∙ less)
      ]
