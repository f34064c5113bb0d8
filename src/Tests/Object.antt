-- ===== src/Tests/Object.antt =====
-- Joining an object of src/, over the manager of system/linux/src/shmman.c.
use librtipc.Prelude.{ℕ, ◌≡◌, ◌≢◌, refl, arith, some, update}
use librtipc.Atomic.{cas32}
use librtipc.Object.{World, take_lock, init_once, join, located, get}
use librtipc.Object.Again.{get-again}
use librtipc.Shmman.{take_lock as take_table_lock, create_shmseg, created, create_locked}
use librtipc.Shmman.Attach.{get_shmseg, got, get_created, connect_in, connect, result}
use librtipc.Shmman.Serving.{segments}
use librtipc.Tests.Shmman.{generous, attached, found}
use librtipc.Object.Once
use librtipc.Object.Once.{Pc, System, Reach, one_at_a_time, set_up_alone, set_up_once}

abbrev to_seven : ℕ → ℕ
to_seven b = 7

-- The segment of the object has been handed out to others, and this process has not attached it yet.
abbrev new_world : World (segments generous) ℕ
new_world = record { manager = attached; objects = λ a. record { lock = 0; init = 0; body = 3 } }

abbrev old_world : World (segments generous) ℕ
old_world = record {
  manager = found;
  objects = update new_world.objects 65552 (record { lock = 0; init = 1; body = 7 });
}

first_get : get (segments generous) 1 to_seven 4 2 new_world ≡ some (some 65552, old_world)
unfolding get located join take_lock init_once cas32 get_shmseg got get_created connect_in connect
    result take_table_lock create_shmseg created create_locked
first_get = refl

get-again_example : get (segments generous) 1 to_seven 9 2 old_world ≡ some (some 65552, old_world)
get-again_example =
    get-again (segments generous) 1 0 to_seven to_seven 4 9 2 65552 new_world old_world first_get
      (omega arith)

abbrev setting : System ℕ to_seven
setting = record {
  shared = record { lock = 1; init = 0; body = 3 };
  users =
      update (update (update (Once.initial ℕ to_seven 3).users 4 Pc.spinning) 4 Pc.testing) 4
        Pc.setting;
  setups = 0;
}

-- Process 4 has the lock and is about to set the contents up.
setting-Reach : Reach ℕ to_seven 3 setting
unfolding cas32
setting-Reach =
    Reach.later
      (Reach.later (Reach.later Reach.start (Once.call 4 refl)) (Once.win 4 refl (omega arith)))
      (Once.find_new 4 refl refl)

set_up_alone_example : setting.users 9 ≢ Pc.attached
set_up_alone_example = set_up_alone ℕ to_seven setting-Reach 4 9 refl

abbrev ready : System ℕ to_seven
ready = record {
  shared = record { lock = 0; init = 1; body = 7 };
  users = update (update (update setting.users 4 Pc.marking) 4 Pc.unlocking) 4 Pc.attached;
  setups = 1;
}

-- Process 4 has returned from its call.
ready-Reach : Reach ℕ to_seven 3 ready
ready-Reach =
    Reach.later (Reach.later (Reach.later setting-Reach (Once.set_up 4 refl)) (Once.mark 4 refl))
      (Once.unlock 4 refl)

set_up_once_example : ready.setups ≡ 1
set_up_once_example = set_up_once ℕ to_seven ready-Reach 4 refl
