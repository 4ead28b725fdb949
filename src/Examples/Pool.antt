-- ===== src/Examples/Pool.antt =====
-- The worker threads at concrete inputs.
use custom_database.Prelude.{◌≡◌, ◌+◌, ◌<◌, ◌≤◌, refl, arith, false, true, some, [], ◌∷◌, length}
use custom_database.Protocol.Message.{Message, ping}
use custom_database.Server.Request.{ServerState, process_request}
use custom_database.Client.Call.{request}
use custom_database.Server.Pool.{
  stop_flag, process, looping, answer, locking, blocking, processing, Pool, go_on, take, pick, push,
  is_waiting, tally, started, Reach, start, inner, outer, Drain, stay, Onward, here, by_step,
}
use custom_database.Server.PoolTally.{is_finished, is_awake}
use custom_database.Server.PoolLaws.{IsSound, Reach-IsSound}
use custom_database.Server.PoolProgress.{IsServed, Reach-IsServed}
use custom_database.Server.PoolStop.{asleep, stop_takes_few, lost_wakeup}
use custom_database.Server.PoolEnd.{IsQuiet, stop_returns}
use custom_database.Server.PoolTaken.{total, total_answered, in_work, Reach-IsBalanced}
use custom_database.Examples.Data.{io, empty_database}

abbrev server : ServerState
server = record { database = some empty_database; total_requests = 0 }

abbrev ping_message : Message
ping_message = request ping 5 [] []

-- A server with one worker that has taken the only request.
abbrev busy : Pool
busy = record {
  shared = record (started 1 server).shared {
    notifications = 1;
    pushed = ping_message ∷ [];
    taken = ping_message ∷ [];
  };
  workers = processing ping_message ∷ [];
}

busy-Reach : Reach 1 server busy
busy-Reach =
    inner (inner (outer start (push ping_message refl)) (pick [] [] refl (go_on refl)))
      (pick [] [] refl (take refl refl))

Reach-IsSound_example : IsSound 1 busy
Reach-IsSound_example = Reach-IsSound busy-Reach

Reach-IsServed_example : IsServed busy.shared (tally is_awake busy.workers)
Reach-IsServed_example = Reach-IsServed (omega arith) busy-Reach

-- A worker that has found nothing to do.
abbrev idle : Pool
idle = record { shared = record (started 1 server).shared { held = true }; workers = blocking ∷ [] }

lost_wakeup_example :
    Drain idle (asleep [] [] idle.shared)
    × (0 < tally is_waiting (asleep [] [] idle.shared).workers)
lost_wakeup_example = lost_wakeup [] [] refl refl refl stay

-- A server that was stopped with two requests in the queue.
abbrev stopped : Pool
stopped = record {
  shared = record (started 1 server).shared {
    running = false;
    queue = ping_message ∷ ping_message ∷ [];
    pushed = ping_message ∷ ping_message ∷ [];
  };
  workers = locking ∷ [];
}

abbrev stopped_later : Pool
stopped_later = record {
  shared = record stopped.shared { queue = ping_message ∷ []; taken = ping_message ∷ [] };
  workers = processing ping_message ∷ [];
}

stopped-Onward : Onward stopped stopped_later
stopped-Onward = by_step here (pick [] [] refl (take refl refl))

stop_takes_few_example :
    length stopped_later.shared.taken ≤ length stopped.shared.taken + length stopped.workers
stop_takes_few_example = stop_takes_few refl stopped-Onward

-- A server with one worker that has answered the only request.
abbrev answered : Pool
answered = record {
  shared = record busy.shared {
    server = (process_request io ping_message server).1;
    answered = (ping_message, (process_request io ping_message server).0) ∷ [];
  };
  workers = looping ∷ [];
}

answered-Reach : Reach 1 server answered
answered-Reach = inner (inner busy-Reach (pick [] [] refl (process io))) (pick [] [] refl answer)

Reach-IsBalanced_example :
    total (λ m. m.id) answered.shared.taken
    ≡ total_answered (λ m. m.id) answered.shared.answered
      + tally (in_work (λ m. m.id)) answered.workers
Reach-IsBalanced_example = Reach-IsBalanced (λ m. m.id) answered-Reach

-- A server that is stopped while its worker is on its way to two requests.
abbrev ending : Pool
ending = record {
  shared = record (started 1 server).shared {
    running = false;
    queue = ping_message ∷ ping_message ∷ [];
    notifications = 2;
    pushed = ping_message ∷ ping_message ∷ [];
  };
  workers = locking ∷ [];
}

ending-Reach : Reach 1 server ending
ending-Reach =
    inner
      (inner (outer (outer start (push ping_message refl)) (push ping_message refl))
        (pick [] [] refl (go_on refl)))
      stop_flag

ending-IsQuiet : IsQuiet ending
unfolding tally
ending-IsQuiet = record { off = refl; none_waits = refl; none_blocks = refl }

stop_returns_example :
    (u : Pool) × Drain ending u × (tally is_finished u.workers ≡ length u.workers)
stop_returns_example = stop_returns io ending-Reach ending-IsQuiet stay
