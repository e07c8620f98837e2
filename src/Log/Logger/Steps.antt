-- ===== src/Log/Logger/Steps.antt =====
-- The calls of LoggerManager, Logger and LogAppender as steps, in any order.
use custom_net_framework.Prelude.{
  ℕ, ◌<◌, suc, ◌≡◌, true, some, List, [], ◌∷◌, ◌++◌, update, contains, has, not, Option, ◌===◌,
  ◌&&◌, if◌then◌else◌, refl, ◌==◌, ==_refl, Bytes, lookup, ===_refl, lookup-insert, arith, inl, inr,
  ◌⊎◌, Bool-cases, Option-cases,
}
use custom_net_framework.Log.Level.{Level}
use custom_net_framework.Log.Pattern.{LogFormatter}
use custom_net_framework.Log.Logger.{
  LogAppender, Logger, LoggerManager, new_logger, add_appender_to, inherit, inherit_all,
  set_appender_formatter, remove_appender, get_logger, with_logger, add_appender, del_appender,
  clear_appenders, set_level, set_formatter, set_pattern, new_manager, make_formatter,
}
use custom_net_framework.Log.Logger.Routing.{Inv, changed-Inv, get_logger_lem}

-- A call. An appender is used after it is created, by its constructor and its setters. Neither it nor
-- a logger is given a null formatter.
pub data Step : LoggerManager → LoggerManager → Type 0 where
  get : (m : LoggerManager) (name : Bytes) → Step m (get_logger m name).0
  create :
      (m : LoggerManager) (a : LogAppender)
      → Step m (record m { appender = update m.appender m.fresh a; fresh = suc m.fresh })
  give :
      (m : LoggerManager) (p : ℕ) (f : LogFormatter)
      → Step m (record m {
        appender = update m.appender p (set_appender_formatter (m.appender p) (some f));
      })
  add : (m : LoggerManager) (name : Bytes) (p : ℕ) → p < m.fresh → Step m (add_appender m name p)
  del : (m : LoggerManager) (name : Bytes) (p : ℕ) → Step m (del_appender m name p)
  clear : (m : LoggerManager) (name : Bytes) → Step m (clear_appenders m name)
  level : (m : LoggerManager) (name : Bytes) (lv : Level) → Step m (set_level m name lv)
  formatter :
      (m : LoggerManager) (name : Bytes) (f : Option LogFormatter)
      → has f ≡ true
      → Step m (set_formatter m name f)
  text : (m : LoggerManager) (name : Bytes) (s : Bytes) → Step m (set_pattern m name s)

pub data Calls : LoggerManager → Type 0 where
  start : Calls new_manager
  next : {m m' : LoggerManager} → Calls m → Step m m' → Calls m'

contains-append :
    (p q : ℕ) (ps : List ℕ) → contains p (ps ++ q ∷ []) ≡ true → (contains p ps ≡ true) ⊎ (p ≡ q)
contains-append p q [] c = ground (arith, c)
contains-append p q (x ∷ ps) c = ground (arith, c, contains-append p q ps)

contains-remove_appender :
    (p q : ℕ) (ps : List ℕ) → contains p (remove_appender q ps) ≡ true → contains p ps ≡ true
unfolding remove_appender
contains-remove_appender p q [] c = absurd (ground (arith, c))
contains-remove_appender p q (x ∷ ps) c =
    let rest = contains-remove_appender p q ps in ground (arith, c, rest)

-- What `Logger::setFormatter` leaves an appender with.
pub inherit_all-at :
    (f : Option LogFormatter) (ps : List ℕ) (h : ℕ → LogAppender) (p : ℕ)
    → ((inherit_all f ps h p).formatter
        ≡ (if contains p ps && not (h p).has_formatter then f else (h p).formatter))
      × ((inherit_all f ps h p).has_formatter ≡ (h p).has_formatter)
inherit_all-at f [] h p = (refl, refl)
inherit_all-at f (q ∷ ps) h p = elim (Bool-cases (q == p)) [
  | inl y ↦ ground (arith, y, inherit_all-at f ps (update h q (inherit f (h q))) p)
  | inr n ↦ ground (arith, n, inherit_all-at f ps (update h q (inherit f (h q))) p)
]

inherit_all-has :
    (f : Option LogFormatter) (ps : List ℕ) (h : ℕ → LogAppender) (p : ℕ)
    → has f ≡ true
    → has (h p).formatter ≡ true
    → has (inherit_all f ps h p).formatter ≡ true
inherit_all-has f ps h p g y = ground (arith, inherit_all-at f ps h p, g, y)

pub get_logger_found :
    (m : LoggerManager) (name : Bytes)
    → (lookup name (get_logger m name).0.loggers ≡ some (get_logger m name).1)
      × ((get_logger m name).0.fresh ≡ m.fresh)
unfolding get_logger
get_logger_found m name = elim (Option-cases (lookup name m.loggers)) [
  | inl n ↦ (
    ground (arith, n, ===_refl name, lookup-insert name name (new_logger true) m.loggers),
    ground (arith, n),
  )
  | inr (l, y) ↦ (ground (arith, y), ground (arith, y))
]

-- Besides, every logger has a formatter.
record Ready (m : LoggerManager) : Type 0 where
  inv : Inv m
  ready : (j : Bytes) (l : Logger) → lookup j m.loggers ≡ some l → has l.formatter ≡ true

edited-Ready :
    (m : LoggerManager) (name : Bytes) (k : Logger)
    → ((j : Bytes) (l : Logger) → lookup j m.loggers ≡ some l → has l.formatter ≡ true)
    → has k.formatter ≡ true
    → (j : Bytes) (l : Logger) → lookup j (with_logger m name k).loggers ≡ some l
    → has l.formatter ≡ true
edited-Ready m name k r g j l e = elim (Bool-cases (j === name)) [
  | inl y ↦ ground (arith, y, e, g, lookup-insert name j k m.loggers)
  | inr n ↦ r j l (ground (arith, n, e, lookup-insert name j k m.loggers))
]

get_logger-Ready :
    (m : LoggerManager) (name : Bytes)
    → Ready m
    → ((j : Bytes) (l : Logger)
        → lookup j (get_logger m name).0.loggers ≡ some l
        → has l.formatter ≡ true)
      × (has (get_logger m name).1.formatter ≡ true)
unfolding get_logger new_logger
get_logger-Ready m name v = elim (Option-cases (lookup name m.loggers)) [
  | inl n ↦
      (rw (n, get_logger) (edited-Ready m name (new_logger true) v.ready refl), ground (arith, n))
  | inr (l, y) ↦ (rw (y, get_logger) v.ready, ground (arith, y, v.ready name l y))
]

-- The logger of a name is replaced by one whose appenders exist and have a formatter.
edit-Inv :
    (m : LoggerManager) (name : Bytes) (l : Logger) (h : ℕ → LogAppender)
    → Inv m
    → ((p : ℕ)
        → has ((get_logger m name).0.appender p).formatter ≡ true
        → has (h p).formatter ≡ true)
    → ((p : ℕ)
        → contains p l.appenders ≡ true
        → (contains p (get_logger m name).1.appenders ≡ true)
          ⊎ ((p < m.fresh) × (has (h p).formatter ≡ true)))
    → Inv (record (with_logger (get_logger m name).0 name l) { appender = h })
edit-Inv m name l h v kept from =
    let v' = (get_logger_lem m name v).0 in
    let (found, same) = get_logger_found m name in
    changed-Inv (get_logger m name).0 name l h v'
      (λ p c. elim (from p c) [
        | inl o ↦ v'.exists name (get_logger m name).1 p found o
        | inr (b, _) ↦ omega (arith, b, same)
      ])
      kept
      (λ p c. elim (from p c) [
        | inl o ↦ kept p (v'.formatted name (get_logger m name).1 p found o)
        | inr (_, y) ↦ y
      ])

set_formatter-Inv :
    (m : LoggerManager) (name : Bytes) (f : Option LogFormatter)
    → has f ≡ true
    → Inv m
    → Inv (set_formatter m name f)
unfolding set_formatter
set_formatter-Inv m name f g v =
    let l = (get_logger m name).1 in
    let m' = (get_logger m name).0 in
    edit-Inv m name (record l { formatter = f }) (inherit_all f l.appenders m'.appender) v
      (λ p y. inherit_all-has f l.appenders m'.appender p g y) (λ p c. inl c)

new_manager-Inv : Inv new_manager
unfolding new_manager add_appender_to new_logger lookup
new_manager-Inv = record {
  exists = λ j l p e c. ground (arith, e, c);
  formatted = λ j l p e c. ground (arith, e, c);
}

given-has :
    (l : Logger) (a : LogAppender)
    → has l.formatter ≡ true
    → has (add_appender_to l a 0).1.formatter ≡ true
unfolding add_appender_to
given-has l a g = elim (Option-cases a.formatter) [
  | inl n ↦ ground (arith, n, g)
  | inr (f, y) ↦ ground (arith, y)
]

add_appender-Inv :
    (m : LoggerManager) (name : Bytes) (p : ℕ)
    → p < m.fresh
    → has (get_logger m name).1.formatter ≡ true
    → Inv m
    → Inv (add_appender m name p)
unfolding add_appender add_appender_to
add_appender-Inv m name p b g v =
    let m' = (get_logger m name).0 in
    let l = (get_logger m name).1 in
    let y = given-has l (m'.appender p) g in
    edit-Inv m name (add_appender_to l (m'.appender p) p).0
      (update m'.appender p (add_appender_to l (m'.appender p) 0).1) v
      (λ q z. elim (Bool-cases (p == q)) [ inl e ↦ rw e y | inr n ↦ rw n z ])
      (λ q c. elim (contains-append q p l.appenders c) [
        | inl o ↦ inl o
        | inr e ↦ inr (omega (arith, e, b), rw (e, ==_refl p) y)
      ])

-- A step keeps the invariant.
Step-Inv : {m m' : LoggerManager} → Step m m' → Ready m → Inv m'
unfolding add_appender add_appender_to del_appender clear_appenders set_level set_pattern
    set_appender_formatter
Step-Inv (get m name) v = (get_logger_lem m name v.inv).0
Step-Inv (create m a) v = record {
  exists = λ j l p e c. ground (arith, v.inv.exists j l p e c);
  formatted = λ j l p e c. ground (arith, v.inv.exists j l p e c, v.inv.formatted j l p e c);
}
Step-Inv (give m p f) v = record {
  exists = v.inv.exists;
  formatted = λ j l q e c. ground (arith, v.inv.formatted j l q e c);
}
Step-Inv (add m name p b) v = add_appender-Inv m name p b ((get_logger-Ready m name v).1) v.inv
Step-Inv (del m name p) v =
    let m' = (get_logger m name).0 in
    let l = (get_logger m name).1 in
    edit-Inv m name (record l { appenders = remove_appender p l.appenders }) m'.appender v.inv
      (λ q y. y) (λ q c. inl (contains-remove_appender q p l.appenders c))
Step-Inv (clear m name) v =
    edit-Inv m name (record (get_logger m name).1 { appenders = [] }) (get_logger m name).0.appender
      v.inv (λ q y. y) (λ q c. absurd (ground (arith, c)))
Step-Inv (level m name lv) v =
    edit-Inv m name (record (get_logger m name).1 { level = lv }) (get_logger m name).0.appender
      v.inv (λ q y. y) (λ q c. inl c)
Step-Inv (formatter m name f g) v = set_formatter-Inv m name f g v.inv
Step-Inv (text m name s) v = elim (Bool-cases (make_formatter s).is_error) [
  | inl y ↦ rw y v.inv
  | inr n ↦ rw n (set_formatter-Inv m name (some (make_formatter s)) refl v.inv)
]

Step-Ready :
    {m m' : LoggerManager}
    → Step m m'
    → Ready m
    → (j : Bytes) (l : Logger) → lookup j m'.loggers ≡ some l
    → has l.formatter ≡ true
unfolding add_appender add_appender_to del_appender clear_appenders set_level set_formatter
    set_pattern
Step-Ready (get m name) v = (get_logger-Ready m name v).0
Step-Ready (create m a) v = v.ready
Step-Ready (give m p f) v = v.ready
Step-Ready (add m name p b) v =
    let (r, g) = get_logger-Ready m name v in edited-Ready (get_logger m name).0 name _ r g
Step-Ready (del m name p) v =
    let (r, g) = get_logger-Ready m name v in edited-Ready (get_logger m name).0 name _ r g
Step-Ready (clear m name) v =
    let (r, g) = get_logger-Ready m name v in edited-Ready (get_logger m name).0 name _ r g
Step-Ready (level m name lv) v =
    let (r, g) = get_logger-Ready m name v in edited-Ready (get_logger m name).0 name _ r g
Step-Ready (formatter m name f g) v =
    edited-Ready (get_logger m name).0 name _ ((get_logger-Ready m name v).0) g
Step-Ready (text m name s) v = elim (Bool-cases (make_formatter s).is_error) [
  | inl y ↦ rw y v.ready
  | inr n ↦ rw n (edited-Ready (get_logger m name).0 name _ ((get_logger-Ready m name v).0) refl)
]

new_manager-Ready :
    (j : Bytes) (l : Logger) → lookup j new_manager.loggers ≡ some l → has l.formatter ≡ true
unfolding new_manager add_appender_to new_logger lookup
new_manager-Ready j l e = ground (arith, e)

Calls-Ready : {m : LoggerManager} → Calls m → Ready m
Calls-Ready start = record { inv = new_manager-Inv; ready = new_manager-Ready }
Calls-Ready (next r s) =
    let v = Calls-Ready r in record { inv = Step-Inv s v; ready = Step-Ready s v }

pub Calls-Inv : {m : LoggerManager} → Calls m → Inv m
Calls-Inv c = (Calls-Ready c).inv
