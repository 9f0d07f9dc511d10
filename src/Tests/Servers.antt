-- ===== src/Tests/Servers.antt =====
-- lib.rs
use http_dragonfly.Prelude.{◌≢◌, ◌+◌, All, ◌≡◌, refl, true, [], ◌∷◌, length, arith}
use http_dragonfly.Server.{
  Service, stopped, draining, marked, signal, end, accept, shut_down, join_next, stop, Reach, here,
  next, service,
}
use http_dragonfly.Server.Bounded.{loop_steps, remaining, Moves, shutdown_ends}
use http_dragonfly.Server.Shutdown.{join_set_grows}

-- One connection is accepted and served, and then a signal arrives.
abbrev one_accepted : Service
one_accepted = record service { accepted = 1; join_set = 0 ∷ [] }

abbrev one_ended : Service
one_ended = record one_accepted { ended = marked one_accepted.ended 0 }

abbrev one_signalled : Service
one_signalled = record one_ended { signalled = true }

abbrev one_draining : Service
one_draining = record one_signalled { phase = draining }

to_ended : Reach service one_ended
to_ended = next (next here (accept service refl refl)) (end one_accepted 0 (omega arith))

from_signal : Reach one_signalled one_draining
from_signal = next here (shut_down one_signalled refl refl)

to_draining : Reach service one_draining
to_draining = next (next to_ended (signal one_ended)) (shut_down one_signalled refl refl)

abbrev one_stopped : Service
one_stopped = record one_draining { join_set = []; phase = stopped }

to_stopped : Reach service one_stopped
to_stopped =
    next (next to_draining (join_next one_draining [] [] 0 refl refl refl))
      (stop (record one_draining { join_set = [] }) refl refl)

join_set_grows_example : length one_ended.join_set ≡ 1
join_set_grows_example = join_set_grows to_ended refl

shutdown_ends_example :
    (one_draining.accepted ≡ 1)
    × (loop_steps from_signal + remaining one_draining ≡ 3)
    × (one_draining.phase ≢ stopped
        → All (λ i. one_draining.ended i ≡ true) one_draining.join_set
        → Moves one_draining)
shutdown_ends_example = shutdown_ends from_signal refl
