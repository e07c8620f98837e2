-- ===== src/Thread.antt =====
-- `Thread` in sylar/sylar/thread.h and thread.cpp: the constructor's handshake with `run` on the new
-- thread, `join`, the destructor and `SetName`, as steps of the creating and of the new thread. The
-- kernel is in the events: the results of pthread_create and pthread_join, and the thread's id.
pub mod Invariant
pub mod Handshake
mod Tests
use custom_net_framework.Prelude.{
  ℕ, zero, suc, ◌+◌, ◌-◌, Bool, true, false, Option, none, some, List, [], ◌∷◌, ltb, if◌then◌else◌,
  Bytes, codes, ◌===◌,
}

-- `id`: `none` is -1; `handle`: m_thread is not 0; `semaphore`: its count.
pub record ThreadObject : Type 0 where
  pub id : Option ℕ
  pub handle : Bool
  pub cb : Option ℕ
  pub name : Bytes
  pub semaphore : ℕ

-- The constructor's call stands before pthread_create, in `wait`, or has ended.
pub data Creator : Type 0 where
  before waiting built threw : Creator

-- The new thread: the last of its statements that is done.
pub data Phase : Type 0 where
  unborn entered bound identified taken notified calling ended : Phase

-- t_thread and t_thread_name of a thread.
pub record Local : Type 0 where
  pub this : Bool
  pub name : Bytes

abbrev pub default_name : Bytes
default_name = codes "UNKNOW"

-- Of a thread that no `Thread` has made.
pub new_local : Local
new_local = record { this = false; name = default_name }

-- The object, until it is destroyed; the new thread with its own `cb`; and the callbacks called.
pub record World : Type 0 where
  pub object : Option ThreadObject
  pub creator : Creator
  pub phase : Phase
  pub local : Local
  pub cb : Option ℕ
  pub called : List ℕ

-- The constructor, up to pthread_create.
pub construct : ℕ → Bytes → World
unfolding new_local
construct cb name = record {
  object = some (record {
    id = none;
    handle = false;
    cb = some cb;
    name = if name === [] then default_name else name;
    semaphore = 0;
  });
  creator = before;
  phase = unborn;
  local = new_local;
  cb = none;
  called = [];
}

-- A step blocks, touches an object that is destroyed or calls no function, or leads on.
pub data Outcome : Type 0 where
  blocks : Outcome
  faults : Outcome
  becomes : World → Outcome

-- A statement that uses the object.
abbrev pub with_object : World → (ThreadObject → Outcome) → Outcome
with_object w f = elim w.object [ none ↦ faults | some o ↦ f o ]

-- The constructor's pthread_create, which may fail, and its `wait`.
pub create : Bool → World → Outcome
create ok w = elim w.creator [
  | before ↦
      if ok
      then with_object w (λ o. becomes (record w {
        object = some (record o { handle = true });
        creator = waiting;
        phase = entered;
      }))
      else becomes (record w { object = none; creator = threw })
  | waiting ↦ blocks
  | built ↦ blocks
  | threw ↦ blocks
]

pub wait : World → Outcome
wait w = elim w.creator [
  | before ↦ blocks
  | waiting ↦ with_object w (λ o.
      if ltb 0 o.semaphore
      then becomes
          (record w { object = some (record o { semaphore = o.semaphore - 1 }); creator = built })
      else blocks)
  | built ↦ blocks
  | threw ↦ blocks
]

-- The next statement of `run`.
pub run : (thread_id : ℕ) → World → Outcome
run thread_id w = elim w.phase [
  | unborn ↦ blocks
  | entered ↦
      with_object w
        (λ o. becomes (record w { local = record { this = true; name = o.name }; phase = bound }))
  | bound ↦ with_object w (λ o.
      becomes (record w { object = some (record o { id = some thread_id }); phase = identified }))
  | identified ↦
      with_object w (λ o.
        becomes (record w { object = some (record o { cb = w.cb }); cb = o.cb; phase = taken }))
  | taken ↦ with_object w (λ o.
      becomes
        (record w { object = some (record o { semaphore = o.semaphore + 1 }); phase = notified }))
  | notified ↦ elim w.cb [
    | none ↦ faults
    | some f ↦ becomes (record w { called = f ∷ w.called; phase = calling })
  ]
  | calling ↦ becomes (record w { phase = ended })
  | ended ↦ blocks
]

-- `SetName`, called by the callback.
pub set_name : Bytes → World → Outcome
set_name name w = elim w.phase [
  | calling ↦
      if w.local.this
      then with_object w (λ o. becomes (record w {
        object = some (record o { name = name });
        local = record (w.local) { name = name };
      }))
      else becomes (record w { local = record (w.local) { name = name } })
  | _ ↦ blocks
]

-- `join`, while the object is there; pthread_join ends with the thread and may fail.
pub join : Bool → World → Outcome
join ok w = elim w.creator [
  | built ↦ elim w.object [
    | none ↦ blocks
    | some o ↦
        if o.handle
        then (elim w.phase [
          | ended ↦
              if ok
              then becomes (record w { object = some (record o { handle = false }) })
              else becomes w
          | _ ↦ blocks
        ])
        else becomes w
  ]
  | _ ↦ blocks
]

-- The destructor, when the object is there and its constructor has returned.
pub destruct : World → Outcome
destruct w = elim w.creator [
  | built ↦ elim w.object [ none ↦ blocks | some o ↦ becomes (record w { object = none }) ]
  | _ ↦ blocks
]

pub data Event : Type 0 where
  creates : Bool → Event
  waits : Event
  runs : Event
  sets_name : Bytes → Event
  joins : Bool → Event
  destructs : Event

pub step : (thread_id : ℕ) → Event → World → Outcome
unfolding create wait run set_name join destruct
step thread_id (creates ok) w = create ok w
step thread_id waits w = wait w
step thread_id runs w = run thread_id w
step thread_id (sets_name name) w = set_name name w
step thread_id (joins ok) w = join ok w
step thread_id destructs w = destruct w
