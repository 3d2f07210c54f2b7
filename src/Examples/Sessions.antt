-- ===== src/Examples/Sessions.antt =====
-- crates/hmcl-plugin-sdk/src/lib.rs: a session that is shut down while an invocation is inside.
use aura_rust_runtime_host.Base.{◌<◌, ◌≡◌, ◌⊎◌, refl, true, false, some, none, arith}
use aura_rust_runtime_host.Sdk.Sessions.{
  Session, new_session, admit, keep_clone, enter, drop_clone, leave, block, take_session,
  finish_wait, try_unwrap, running, waiting, unwrapping, owned,
}
use aura_rust_runtime_host.Sdk.SoleOwner.{
  Reaches, start, after, entered, clone_dropped, left, taken, blocked, waited, unwrapped,
}
use aura_rust_runtime_host.Sdk.Shutdown.{try_unwrap-stage, GetsPlugin, owned-final, no_lost_wakeup}

abbrev busy : Session
busy = record {
  accepting = true;
  in_flight = 1;
  installed = true;
  owners = 2;
  holding = 1;
  leaving = 0;
  asleep = false;
  stage = running;
}

abbrev closing : Session
closing = record {
  accepting = false;
  in_flight = 1;
  installed = false;
  owners = 2;
  holding = 1;
  leaving = 0;
  asleep = false;
  stage = waiting;
}

abbrev quiet : Session
quiet = record {
  accepting = false;
  in_flight = 0;
  installed = false;
  owners = 1;
  holding = 0;
  leaving = 0;
  asleep = false;
  stage = unwrapping;
}

first_entry : enter new_session ≡ some busy
unfolding enter admit keep_clone new_session
first_entry = refl

-- The shutdown finds the invocation in progress, and blocks.
abbrev blocked_shutdown : Session
blocked_shutdown = record closing { asleep = true }

closing_blocks : block closing ≡ some blocked_shutdown
unfolding block
closing_blocks = refl

closing_run : Reaches new_session closing
unfolding take_session
closing_run = after (after start (entered first_entry)) (taken refl)

-- The invocation returns.
abbrev returned : Session
returned = leave (drop_clone blocked_shutdown)

returned_run : Reaches new_session returned
unfolding drop_clone
returned_run =
    after
      (after (after closing_run (blocked refl refl closing_blocks)) (clone_dropped (omega arith)))
      (left (omega arith))

last_wait : finish_wait returned ≡ some quiet
unfolding finish_wait leave drop_clone
last_wait = refl

quiet_run : Reaches new_session quiet
unfolding drop_clone leave
quiet_run = after returned_run (waited refl refl last_wait)

owned_run : Reaches new_session (try_unwrap quiet)
owned_run = after quiet_run (unwrapped refl)

try_unwrap-stage_example : (try_unwrap quiet).stage ≡ owned
try_unwrap-stage_example = try_unwrap-stage quiet quiet_run refl

owned-final_example :
    ((try_unwrap quiet).holding ≡ 0)
    × ((try_unwrap quiet).leaving ≡ 0)
    × (enter (try_unwrap quiet) ≡ none)
owned-final_example =
    owned-final (try_unwrap quiet) (try_unwrap quiet) owned_run try_unwrap-stage_example start

no_lost_wakeup_example :
    (enter returned ≡ none)
    × ((0 < returned.holding) ⊎ (0 < returned.leaving) ⊎ GetsPlugin returned)
unfolding drop_clone leave
no_lost_wakeup_example = no_lost_wakeup returned returned_run refl
