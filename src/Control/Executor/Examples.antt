-- ===== src/Control/Executor/Examples.antt =====
-- The executor and its registry on a small queue.
use chimera_service.Base.{
  ◌<◌, ◌≡◌, refl, ◌⊎◌, true, false, none, some, List, [], ◌∷◌, ◌++◌, arith, length,
}
use chimera_service.Errors.{core_error, CoreErrorKind}
use chimera_service.Control.Registry.{
  Output, stopped, succeeded, running, new, get, insert, Registry, terminal_op, sent, full,
  registered, existing, refused, admit,
}
use chimera_service.Control.Digest.{LocalIpcSettings, stop, recover, is_shutdown, with_local_ipc}
use chimera_service.Control.Executor.{
  Work, died, draining, exited, panicked, Input, submit, receive, complete, drain_next, drain_end,
  spawn, step, run,
}
use chimera_service.Control.Digest.{prefer}
use chimera_service.Control.Registry.Evict.{Call, admission, setting, perform_calls, evict_room}
use chimera_service.Control.Registry.Admit.{admit_lem, AdmitSpec, Untouched, admit_again}
use chimera_service.Control.Registry.{evict}
use chimera_service.Control.Executor.Pending.{
  has_exited, queue_mirrors_registry, exit_settles, count, count_current, queued_op, running_op,
}
use chimera_service.Control.Executor.Serial.{◌⇒◌, state_in, operation_moves, closed_latch}
use chimera_service.Control.Executor.Drain.{drain_inputs, drain_ends}

abbrev settings : LocalIpcSettings
settings = record { policy = prefer; keep_http_controller = false }

-- two operations are queued, the first one panics
abbrev two_then_panic : List Input
two_then_panic =
    submit 7 stop false false ∷ submit 8 recover false false ∷ receive ∷ complete panicked ∷ []

abbrev and_drained : List Input
and_drained = two_then_panic ++ drain_next ∷ drain_end ∷ []

abbrev one_done : Registry
one_done = record {
  operations = (3, record { digest = 30; sequence = 0; state = succeeded Output.stopped }) ∷ [];
  order = 3 ∷ [];
  next_sequence = 1;
  capacity = 1;
}

queue_mirrors_registry_example :
    let s = run settings (spawn 4 2) two_then_panic in
    (count 8 s.queue ≡ queued_op (get 8 s.registry.operations))
    × (count_current 8 s.current ≡ running_op (get 8 s.registry.operations))
queue_mirrors_registry_example = queue_mirrors_registry settings 4 2 two_then_panic 8

and_drained-exited : has_exited (run settings (spawn 4 2) and_drained).mode ≡ true
unfolding run step spawn admit get insert evict with_local_ipc
and_drained-exited = refl

exit_settles_example :
    let table = (run settings (spawn 4 2) and_drained).registry.operations in
    (get 8 table ≡ none) ⊎ (terminal_op (get 8 table) ≡ true)
exit_settles_example = exit_settles settings 4 2 and_drained 8 and_drained-exited

then_drains : (run settings (spawn 4 2) two_then_panic).mode ≡ draining died
unfolding run step spawn admit get insert evict with_local_ipc
then_drains = refl

no_permit : (run settings (spawn 4 2) two_then_panic).permits ≡ 0
unfolding run step spawn admit get insert evict with_local_ipc
no_permit = refl

drain_ends_example :
    let s = run settings (spawn 4 2) two_then_panic in
    let s' = run settings s (drain_inputs (length s.queue)) in
    (s'.mode ≡ exited died)
    × ((get 8 s'.registry.operations ≡ none) ⊎ (terminal_op (get 8 s'.registry.operations) ≡ true))
drain_ends_example = drain_ends settings 4 2 two_then_panic died 8 then_drains no_permit

operation_moves_example :
    let s = run settings (spawn 4 2) (submit 7 stop false false ∷ []) in
    state_in (get 7 s.registry.operations)
    ⇒ state_in (get 7 (step settings s receive).registry.operations)
operation_moves_example = operation_moves settings 4 2 (submit 7 stop false false ∷ []) receive 7

closed_latch_example :
    let s = record (spawn 4 2) { closing = true; queue = record { id = 7; command = stop } ∷ [] } in
    let s' = run settings s (receive ∷ []) in
    (s'.closing ≡ true)
    × ((s'.current ≡ s.current)
        ⊎ (s'.current ≡ none)
        ⊎ ((work : Work) × (s'.current ≡ some work) × (is_shutdown work.command ≡ true)))
closed_latch_example =
    closed_latch settings
      (record (spawn 4 2) { closing = true; queue = record { id = 7; command = stop } ∷ [] })
      (receive ∷ []) refl

-- one operation registered, started and ended
abbrev one_ended : List Call
one_ended = admission 3 30 sent ∷ setting 3 running ∷ setting 3 (succeeded stopped) ∷ []

evict_room_example :
    let r = evict (perform_calls (new 1) one_ended) in
    (length r.operations < r.capacity) ⊎ (terminal_op (get 3 r.operations) ≡ false)
evict_room_example = evict_room 1 one_ended 3

admit_lem_example :
    AdmitSpec one_done 4 40 (admit one_done 4 40 sent).0 (admit one_done 4 40 sent).1
    × Untouched one_done (admit one_done 4 40 sent).0 4 3
admit_lem_example = admit_lem one_done 4 40 3 sent

is_registered_4 : (admit one_done 4 40 sent).1 ≡ registered 1
unfolding admit get insert evict
is_registered_4 = refl

admit_again_example :
    let r' = (admit one_done 4 40 sent).0 in
    (admit r' 4 40 full ≡ (r', existing 1))
    × (admit r' 4 41 full ≡ (r', refused (core_error CoreErrorKind.operation_conflict false 4)))
admit_again_example = admit_again one_done 4 40 41 1 sent full is_registered_4 (omega arith)
