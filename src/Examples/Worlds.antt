-- ===== src/Examples/Worlds.antt =====
-- Small threads for the tests.
use boost_cmt.Base.{ℕ, ◌+◌, [], ◌∷◌, Option, none, some, false}
use boost_cmt.Base.Links.{put}
use boost_cmt.Promise.{empty}
use boost_cmt.Thread.State.{World, Contexts, Tasks, default_priority}

abbrev pub nowhere : ℕ → Option ℕ
nowhere c = none

abbrev pub no_contexts : Contexts
no_contexts = record {
  next = nowhere;
  next_blocked = nowhere;
  prom = nowhere;
  resume_time = λ c. 0;
  canceled = λ c. false;
  ctx_prio = λ c. default_priority;
}

abbrev pub no_tasks : Tasks
no_tasks = record {
  task_next = nowhere;
  when = λ t. 0;
  prio = λ t. default_priority;
  posted_num = λ t. t;
  task_canceled = λ t. false;
  active_context = nowhere;
}

-- The thread 0, of which no context exists.
abbrev pub idle : World ℕ
idle = record {
  contexts = no_contexts;
  tasks = no_tasks;
  promises = λ p. empty;
  posted = [];
  self = 0;
  current = none;
  ready_head = none;
  ready_tail = none;
  blocked = none;
  sleep_pqueue = [];
  task_in_queue = none;
  task_pqueue = [];
  task_sch_queue = [];
  done = false;
  fresh = 9;
}

-- The contexts 1 and 2 are blocked on the promise 7, for which the thread is notified; 3 is ready.
abbrev pub waiting : World ℕ
waiting = record idle {
  contexts = record no_contexts {
    next_blocked = put nowhere 1 (some 2);
    prom = put (put nowhere 1 (some 7)) 2 (some 7);
  };
  promises = λ p. record empty { blocked_thread = some 0 };
  blocked = some 1;
  ready_head = some 3;
  ready_tail = some 3;
}

-- The same with nothing ready.
abbrev pub stuck : World ℕ
stuck = record waiting { ready_head = none; ready_tail = none }

-- The context 1 runs; 2 and 3 are ready.
abbrev pub running : World ℕ
running = record idle {
  contexts = record no_contexts { next = put nowhere 2 (some 3) };
  current = some 1;
  ready_head = some 2;
  ready_tail = some 3;
}

abbrev pub alone : World ℕ
alone = record idle { current = some 1 }

-- The contexts 4 and 5 sleep up to the times 10 and 30; 2 and 3 are ready.
abbrev pub sleeping : World ℕ
sleeping = record running {
  contexts = record no_contexts {
    next = put nowhere 2 (some 3);
    resume_time = put (put (λ c. 0) 4 10) 5 30;
  };
  sleep_pqueue = 4 ∷ 5 ∷ [];
}

-- The tasks 2 and 1 were posted; 3, of a higher priority, is queued, and 4 and 5 are scheduled for
-- the times 100 and 10.
abbrev pub busy : World ℕ
busy = record idle {
  tasks = record no_tasks {
    task_next = put nowhere 2 (some 1);
    when = put (put (λ t. 0) 4 100) 5 10;
    prio = put (λ t. default_priority) 3 (default_priority + 1);
  };
  task_in_queue = some 2;
  task_pqueue = 3 ∷ [];
  task_sch_queue = 4 ∷ 5 ∷ [];
}
