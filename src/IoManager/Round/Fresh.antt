-- ===== src/IoManager/Round/Fresh.antt =====
-- The reports of epoll_wait, and the loop over them.
use custom_net_framework.Prelude.{
  ℕ, ◌≡◌, ◌≢◌, inl, inr, Bool, refl, sym, subst, ◌∙◌, arith, true, false, Option, none, some, List,
  [], ◌∷◌, ◌==◌, u32, All, get_elem?, Option-cases, and_not, bit_and, bit_or, not, ◌&&◌,
}
use custom_net_framework.IoManager.Events.{Event, has_event}
use custom_net_framework.IoManager.Books.{events_at}
use custom_net_framework.IoManager.Mirror.{Inv}
use custom_net_framework.IoManager.{Epoll, IoManager, del, next_op, ctl_call, epoll_et}
use custom_net_framework.IoManager.Context.{FdContext}
use custom_net_framework.IoManager.Delete.{Does}
use custom_net_framework.IoManager.Report.{real_events}
use custom_net_framework.IoManager.Idle.{handle_report_exact, wakes_all}
use custom_net_framework.IoManager.Round.{Report, of_pipe, of_fd, clamp, poll, handle_all}

clamp_twice : (n : ℕ) → clamp (clamp n) ≡ clamp n
unfolding clamp
clamp_twice n = ground arith

pub poll-args :
    (n : ℕ) (rs : List (Option (List Report))) (args : List ℕ) (reports : List Report)
    → poll n rs ≡ some (args, reports)
    → All (λ a. a ≡ u32 (clamp n)) args
unfolding poll
poll-args n [] args reports e = absurd (ground (arith, e))
poll-args n (some r ∷ rs) args reports e = ground (arith, e)
poll-args n (none ∷ rs) args reports e = elim (Option-cases (poll (clamp n) rs)) [
  | inl m ↦ absurd (ground (arith, e, m))
  | inr ((as', reports'), y) ↦
      let same : (u32 (clamp n) ∷ as') ≡ args = ground (arith, e, y) in
      subst (All (λ a. a ≡ u32 (clamp n))) same (
        refl,
        subst (λ c. All (λ a. a ≡ u32 c) as') (clamp_twice n)
            (poll-args (clamp n) rs as' reports' y),
      )
]

-- The events that a report of `reported` stands for are waited for, where `old` are.
unfoldable pub IsAwaited : (reported old : ℕ) → Type 0
IsAwaited reported old =
    (old ≢ 0)
    × ((e : Event) → has_event (real_events reported old) e ≡ true → has_event old e ≡ true)

module _ (E : Epoll) where
  -- A report of another descriptor.
  unfoldable pub IsOther : ℕ → Report → Type 0
  IsOther fd of_pipe = Unit
  IsOther fd (of_fd g reported) = (fd == g) ≡ false

  -- Reports of distinct descriptors, each for events that are waited for.
  unfoldable pub AreFresh : IoManager (E.State) → List Report → Type 0
  AreFresh io [] = Unit
  AreFresh io (of_pipe ∷ rs) = AreFresh io rs
  AreFresh io (of_fd fd reported ∷ rs) =
      IsAwaited reported (events_at io.fd_contexts fd) × All (IsOther fd) rs × AreFresh io rs

  -- A report stands for an event among `old`, and its call of epoll_ctl succeeds.
  unfoldable pub is_taken : IoManager (E.State) → (fd reported old : ℕ) → Bool
  is_taken io fd reported old =
      let real = real_events reported old in
      let left = and_not old real in
      not (bit_and old real == 0) && (ctl_call E io (next_op left del) fd (bit_or epoll_et left)).1

  -- The states along the loop over the reports. A report that stands for an event that is waited
  -- for, and whose epoll_ctl succeeds, takes these events from its descriptor and hands over what
  -- waited for them; another changes no events and hands over nothing.
  pub data Handled (pipe : ℕ)
      : IoManager (E.State) → List Report → IoManager (E.State) → Type 0 where
    ends : {io : IoManager (E.State)} → Handled pipe io [] io
    of_pipe_too :
        {io io' : IoManager (E.State)} {rs : List Report}
        → Handled pipe io rs io'
        → Handled pipe io (of_pipe ∷ rs) io'
    reports :
        {fd reported : ℕ} {c : FdContext} {rs : List Report} {io io' io'' : IoManager (E.State)}
        → get_elem? io.fd_contexts fd ≡ some c
        → Does E pipe io io'
            (is_taken io fd reported c.events)
            fd
            (and_not c.events (real_events reported c.events))
            (wakes_all c (real_events reported c.events))
        → Handled pipe io' rs io''
        → Handled pipe io (of_fd fd reported ∷ rs) io''

  -- The same table.
  pub fresh_under :
      (io io' : IoManager (E.State))
      → io'.fd_contexts ≡ io.fd_contexts
      → (rs : List Report) → AreFresh io rs
      → AreFresh io' rs
  unfolding AreFresh
  fresh_under io io' e [] f = tt
  fresh_under io io' e (of_pipe ∷ rs) f = fresh_under io io' e rs f
  fresh_under io io' e (of_fd fd reported ∷ rs) (a, c, d) =
      (subst (λ t. IsAwaited reported (events_at t fd)) (sym e) a, c, fresh_under io io' e rs d)

  -- States that agree on the events of the descriptors of the reports.
  fresh-same :
      (io io' : IoManager (E.State)) (fd : ℕ) (rs : List Report)
      → ((j : ℕ) → (fd == j) ≡ false → events_at io'.fd_contexts j ≡ events_at io.fd_contexts j)
      → All (IsOther fd) rs
      → AreFresh io rs
      → AreFresh io' rs
  unfolding AreFresh IsOther
  fresh-same io io' fd [] same o f = tt
  fresh-same io io' fd (of_pipe ∷ rs) same o f = fresh-same io io' fd rs same o.1 f
  fresh-same io io' fd (of_fd g reported ∷ rs) same o (a, c, d) =
      (subst (IsAwaited reported) (sym (same g o.0)) a, c, fresh-same io io' fd rs same o.1 d)

  pub handle_all_lem :
      (pipe : ℕ) (io : IoManager (E.State)) (rs : List Report)
      → Inv E pipe io
      → AreFresh io rs
      → (io' : IoManager (E.State)) × (handle_all E io rs ≡ some io')
        × Inv E pipe io'
        × Handled pipe io rs io'
        × ((j : ℕ) → All (IsOther j) rs → events_at io'.fd_contexts j ≡ events_at io.fd_contexts j)
  unfolding handle_all AreFresh IsOther IsAwaited is_taken
  handle_all_lem pipe io [] v f = (io, refl, v, ends, λ j o. refl)
  handle_all_lem pipe io (of_pipe ∷ rs) v f =
      let (io', run, v', h, same) = handle_all_lem pipe io rs v f in
      (io', run, v', of_pipe_too h, λ j o. same j o.1)
  handle_all_lem pipe io (of_fd fd reported ∷ rs) v (a, c, d) =
      elim (Option-cases (get_elem? io.fd_contexts fd)) [
        | inl n ↦ absurd (a.0 (ground (arith, n)))
        | inr (x, y) ↦
            let at : events_at io.fd_contexts fd ≡ x.events = ground (arith, y) in
            let awaited : IsAwaited reported x.events = subst (IsAwaited reported) at a in
            let (io1, run, does) = handle_report_exact E pipe io fd x reported v y awaited.1 in
            let others : (j : ℕ)
                → (fd == j) ≡ false
                → events_at io1.fd_contexts j ≡ events_at io.fd_contexts j =
              λ j o. does.events j ∙ ground (arith, o) in
            let (io', rest, v', h, same) =
              handle_all_lem pipe io1 rs does.inv (fresh-same io io1 fd rs others c d) in
            (
              io',
              ground (arith, run, rest),
              v',
              reports y does h,
              λ j o. same j o.1 ∙ others j (ground (arith, o.0)),
            )
      ]
