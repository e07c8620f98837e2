-- ===== src/Thread/Invariant.antt =====
-- What each step of the two threads keeps.
use custom_net_framework.Prelude.{
  ℕ, ◌-◌, ◌≤◌, ◌≡◌, ◌≢◌, inl, inr, refl, arith, Bool, false, none, some, [], ◌∷◌, leb, Option-cases,
  if◌then◌else◌, Bytes,
}
use custom_net_framework.Thread.{
  ThreadObject, Creator, before, waiting, built, threw, Phase, unborn, entered, bound, identified,
  taken, notified, calling, ended, World, construct, becomes, create, wait, run, set_name, join,
  destruct, Event, creates, waits, runs, sets_name, joins, destructs, step, new_local,
}

-- How many statements of `run` are done.
unfoldable pub done : Phase → ℕ
done unborn = 0
done entered = 1
done bound = 2
done identified = 3
done taken = 4
done notified = 5
done calling = 6
done ended = 7

unfoldable pub stage : Creator → ℕ
stage before = 0
stage waiting = 1
stage built = 2
stage threw = 3

module _ (thread_id cb : ℕ) where
  -- The object, as long as it is there.
  pub record IsSound (c : Creator) (n : ℕ) (o : ThreadObject) : Type 0 where
    pub id : o.id ≡ (if leb 3 n then some thread_id else none)
    pub callback : o.cb ≡ (if leb 4 n then none else some cb)
    pub count : o.semaphore ≡ (if leb 5 n then 2 - stage c else 0)
    pub joined : c ≢ before → o.handle ≡ false → n ≡ 7

  pub record Inv (w : World) : Type 0 where
    pub own : (o : ThreadObject) → w.object ≡ some o → IsSound w.creator (done w.phase) o
    pub young :
        (w.creator ≡ before → done w.phase ≡ 0)
        × (w.creator ≡ threw → done w.phase ≡ 0)
        × (w.creator ≡ waiting → 1 ≤ done w.phase)
        × (w.creator ≡ built → 5 ≤ done w.phase)
    pub there : w.object ≡ none → 2 ≤ stage w.creator
    pub mine :
        (w.cb ≡ (if leb 4 (done w.phase) then some cb else none))
        × (w.local.this ≡ leb 2 (done w.phase))
    pub calls : w.called ≡ (if leb 6 (done w.phase) then cb ∷ [] else [])

  pub construct-Inv : (name : Bytes) → Inv (construct cb name)
  unfolding construct new_local done stage
  construct-Inv name = record {
    own = λ o e. record {
      id = ground (arith, e);
      callback = ground (arith, e);
      count = ground (arith, e);
      joined = λ b _. absurd (b refl);
    };
    young = ((λ _. refl), (λ h. cc), (λ h. cc), (λ h. cc));
    there = λ h. cc;
    mine = (refl, refl);
    calls = refl;
  }

  create-Inv : (ok : Bool) (w w' : World) → Inv w → create ok w ≡ becomes w' → Inv w'
  unfolding create done stage
  create-Inv ok w w' v e = record {
    own = λ o f. elim (Option-cases w.object) [
      | inl n ↦ absurd (ground (arith, e, f, n, v.there))
      | inr (o0, y) ↦
          let s = v.own o0 y in
          record {
            id = ground (arith, e, f, y, s.id, v.young);
            callback = ground (arith, e, f, y, s.callback, v.young, v.mine);
            count = ground (arith, e, f, y, s.count, v.young);
            joined = ground (arith, e, f, y, s.joined, v.young);
          }
    ];
    young = ground (arith, v.young, e);
    there = ground (arith, v.there, e);
    mine = ground (arith, v.mine, v.young, e);
    calls = ground (arith, v.calls, v.young, e);
  }

  wait-Inv : (w w' : World) → Inv w → wait w ≡ becomes w' → Inv w'
  unfolding wait done stage
  wait-Inv w w' v e = record {
    own = λ o f. elim (Option-cases w.object) [
      | inl n ↦ absurd (ground (arith, e, f, n, v.there))
      | inr (o0, y) ↦
          let s = v.own o0 y in
          record {
            id = ground (arith, e, f, y, s.id, v.young);
            callback = ground (arith, e, f, y, s.callback, v.young, v.mine);
            count = ground (arith, e, f, y, s.count, v.young);
            joined = ground (arith, e, f, y, s.joined, v.young);
          }
    ];
    young = elim (Option-cases w.object) [
      | inl n ↦ ground (arith, e, n, v.there, v.young)
      | inr (o0, y) ↦ ground (arith, e, y, (v.own o0 y).count, v.young)
    ];
    there = ground (arith, v.there, e);
    mine = ground (arith, v.mine, v.young, e);
    calls = ground (arith, v.calls, v.young, e);
  }

  run-Inv : (w w' : World) → Inv w → run thread_id w ≡ becomes w' → Inv w'
  unfolding run done stage
  run-Inv w w' v e = record {
    own = λ o f. elim (Option-cases w.object) [
      | inl n ↦ absurd (ground (arith, e, f, n, v.there))
      | inr (o0, y) ↦
          let s = v.own o0 y in
          record {
            id = ground (arith, e, f, y, s.id, v.young);
            callback = ground (arith, e, f, y, s.callback, v.young, v.mine);
            count = ground (arith, e, f, y, s.count, v.young);
            joined = ground (arith, e, f, y, s.joined, v.young);
          }
    ];
    young = ground (arith, v.young, e);
    there = ground (arith, v.there, e);
    mine = elim (Option-cases w.object) [
      | inl n ↦ ground (arith, e, n, v.there, v.young, v.mine)
      | inr (o0, y) ↦ ground (arith, e, y, (v.own o0 y).callback, v.young, v.mine)
    ];
    calls = ground (arith, v.calls, v.young, e);
  }

  set_name-Inv : (name : Bytes) (w w' : World) → Inv w → set_name name w ≡ becomes w' → Inv w'
  unfolding set_name done stage
  set_name-Inv name w w' v e = record {
    own = λ o f. elim (Option-cases w.object) [
      | inl n ↦ absurd (ground (arith, e, f, n, v.there))
      | inr (o0, y) ↦
          let s = v.own o0 y in
          record {
            id = ground (arith, e, f, y, s.id, v.young);
            callback = ground (arith, e, f, y, s.callback, v.young, v.mine);
            count = ground (arith, e, f, y, s.count, v.young);
            joined = ground (arith, e, f, y, s.joined, v.young);
          }
    ];
    young = ground (arith, v.young, e);
    there = ground (arith, v.there, e);
    mine = ground (arith, v.mine, v.young, e);
    calls = ground (arith, v.calls, v.young, e);
  }

  join-Inv : (ok : Bool) (w w' : World) → Inv w → join ok w ≡ becomes w' → Inv w'
  unfolding join done stage
  join-Inv ok w w' v e = record {
    own = λ o f. elim (Option-cases w.object) [
      | inl n ↦ absurd (ground (arith, e, f, n, v.there))
      | inr (o0, y) ↦
          let s = v.own o0 y in
          record {
            id = ground (arith, e, f, y, s.id, v.young);
            callback = ground (arith, e, f, y, s.callback, v.young, v.mine);
            count = ground (arith, e, f, y, s.count, v.young);
            joined = ground (arith, e, f, y, s.joined, v.young);
          }
    ];
    young = ground (arith, v.young, e);
    there = ground (arith, v.there, e);
    mine = ground (arith, v.mine, v.young, e);
    calls = ground (arith, v.calls, v.young, e);
  }

  destruct-Inv : (w w' : World) → Inv w → destruct w ≡ becomes w' → Inv w'
  unfolding destruct done stage
  destruct-Inv w w' v e = record {
    own = λ o f. elim (Option-cases w.object) [
      | inl n ↦ absurd (ground (arith, e, f, n, v.there))
      | inr (o0, y) ↦
          let s = v.own o0 y in
          record {
            id = ground (arith, e, f, y, s.id, v.young);
            callback = ground (arith, e, f, y, s.callback, v.young, v.mine);
            count = ground (arith, e, f, y, s.count, v.young);
            joined = ground (arith, e, f, y, s.joined, v.young);
          }
    ];
    young = ground (arith, v.young, e);
    there = ground (arith, v.there, e);
    mine = ground (arith, v.mine, v.young, e);
    calls = ground (arith, v.calls, v.young, e);
  }

  pub step-Inv : (e : Event) (w w' : World) → Inv w → step thread_id e w ≡ becomes w' → Inv w'
  unfolding step
  step-Inv (creates ok) w w' v h = create-Inv ok w w' v h
  step-Inv waits w w' v h = wait-Inv w w' v h
  step-Inv runs w w' v h = run-Inv w w' v h
  step-Inv (sets_name name) w w' v h = set_name-Inv name w w' v h
  step-Inv (joins ok) w w' v h = join-Inv ok w w' v h
  step-Inv destructs w w' v h = destruct-Inv w w' v h
