-- ===== src/Semaphore/Tests.antt =====
-- A semaphore with two tokens, one of which is dropped, two fibers that wait, and a notification.
use custom_net_framework.Prelude.{◌≡◌, ◌+◌, ◌⊎◌, ◌↔◌, true, ◌++◌, arith, length, [], ◌∷◌, refl}
use custom_net_framework.Semaphore.{new_semaphore, wait, notify, reset, may_destroy}
use custom_net_framework.Semaphore.Order.{
  System, start, after_wait, after_notify, after_reset, Reach, here, waits, notifies, resets,
  semaphore_lem,
}

abbrev used : System
used = after_notify (after_wait (after_wait (after_reset (after_wait (start 2) 1 4)) 1 5) 2 6)

used-Reach : Reach 2 used
used-Reach = notifies (waits 2 6 (waits 1 5 (resets (waits 1 4 here))))

used_waiters : used.sem.waiters ≡ (2, 6) ∷ []
unfolding new_semaphore wait notify reset
used_waiters = refl

semaphore_lem_example :
    ((used.sem.concurrency ≡ 0) ⊎ (used.sem.waiters ≡ []))
    × (used.arrived ≡ used.woken ++ used.sem.waiters)
    × (2 + used.notified ≡ used.sem.concurrency + used.acquired + length used.woken + used.dropped)
    × ((may_destroy used.sem ≡ true) ↔ (used.arrived ≡ used.woken))
unfolding new_semaphore wait notify reset
semaphore_lem_example = semaphore_lem used-Reach (omega arith)
