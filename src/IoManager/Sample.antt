-- ===== src/IoManager/Sample.antt =====
-- States of the IOManager on an epoll that keeps its interest list as a function.
use custom_net_framework.Prelude.{
  ℕ, ◌+◌, ◌^◌, ◌≡◌, refl, subst, Bool, true, false, Option, none, some, [], arith, ◌==◌,
  if◌then◌else◌, set,
}
use custom_net_framework.IoManager.Events.{read_event, has_event, with_event}
use custom_net_framework.IoManager.Context.{FdContext, empty_context}
use custom_net_framework.IoManager.Books.{events_at}
use custom_net_framework.IoManager.{
  requested, Epoll, IoManager, ensure_context, event_target, store_event, add_to_context, add_event,
}
use custom_net_framework.IoManager.{construct, context_resize, fresh_contexts}
use custom_net_framework.IoManager.Context.{fresh_context}
use custom_net_framework.Fiber.{exec}
use custom_net_framework.IoManager.Mirror.{Inv}
use custom_net_framework.IoManager.Construct.{construct_lem}
use custom_net_framework.IoManager.Add.{add_event_lem}

pub cannot_fail : (a b : Option ℕ) → true ≡ false → a ≡ b
cannot_fail a b e = cc

abbrev pub table : Epoll
table = record {
  State = ℕ → Option ℕ;
  ctl = λ k op fd m. (λ j. if fd == j then requested op m else k j, true);
  interest = λ k fd. k fd;
  ctl_failed = λ k op fd m j e. cannot_fail (if fd == j then requested op m else k j) (k j) e;
  ctl_done = λ k op fd m j e. refl;
}

-- After the constructor; the pipe is descriptor 3.
abbrev pub new : IoManager (ℕ → Option ℕ)
unfolding fresh_contexts fresh_context
new = record {
  kernel = λ j. if 3 == j then some (2 ^ 31 + 1) else none;
  fd_contexts = fresh_contexts 0 32;
  pending_event_count = 0;
  scheduled = [];
}

-- Descriptor 5 waits to read, with callback 7 for scheduler 1.
abbrev pub reader : FdContext
reader = record {
  read = record { scheduler = some 1; fiber = none; cb = some 7 };
  write = empty_context;
  fd = 5;
  events = 1;
}

abbrev pub one : IoManager (ℕ → Option ℕ)
one = record {
  kernel = λ j. if 5 == j then some (2 ^ 31 + 1) else new.kernel j;
  fd_contexts = set new.fd_contexts 5 reader;
  pending_event_count = 1;
  scheduled = [];
}

same_run :
    (a : Option (IoManager (ℕ → Option ℕ))) (x y : IoManager (ℕ → Option ℕ))
    → a ≡ some x
    → a ≡ some y
    → Inv table 3 x
    → Inv table 3 y
same_run a x y e f v = subst (Inv table 3) (ground (arith, e, f)) v

same_result :
    (a : Option (IoManager (ℕ → Option ℕ) × Bool)) (x y : IoManager (ℕ → Option ℕ)) (p q : Bool)
    → a ≡ some (x, p)
    → a ≡ some (y, q)
    → Inv table 3 x
    → Inv table 3 y
same_result a x y p q e f v = subst (Inv table 3) (ground (arith, e, f)) v

new_run : construct table (λ _. none) 3 ≡ some new
unfolding construct context_resize new
new_run = refl

pub new-Inv : Inv table 3 new
new-Inv =
    let (io, run, inv, _, _) = construct_lem table (λ _. none) 3 (λ _. refl) refl in
    same_run (construct table (λ _. none) 3) io new run new_run inv

one_run : add_event table new 5 read_event (some 7) 1 2 exec ≡ some (one, true)
unfolding add_event add_to_context store_event event_target ensure_context fresh_contexts
    fresh_context has_event with_event
one_run = refl

pub one-Inv : Inv table 3 one
unfolding fresh_contexts fresh_context has_event
one-Inv =
    let (io', ok, run, inv, _, _) =
      add_event_lem table 3 new 5 read_event (some 7) 1 2 exec new-Inv refl refl in
    same_result (add_event table new 5 read_event (some 7) 1 2 exec) io' one ok true run one_run inv

pub new_idle : has_event (events_at new.fd_contexts 5) read_event ≡ false
unfolding fresh_contexts fresh_context has_event new
new_idle = refl

pub one_events : events_at one.fd_contexts 5 ≡ 1
unfolding fresh_contexts fresh_context new
one_events = refl
