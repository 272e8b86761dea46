-- ===== src/Tests/AdmissionTests.antt =====
-- The registry and its slots.
use acp_a2a_gateway.Prelude.{
  ◌≡◌, ◌≤◌, refl, List, [], ◌∷◌, err, lookup, stream_capacity_exhausted, insert,
}
use acp_a2a_gateway.Gatewayd.Registry.{try_acquire_stream, drop_permit}
use acp_a2a_gateway.Gatewayd.Registry.Slots.{
  Event, requested, finished, count, serve, start, finish, slots_bounded,
}
use acp_a2a_gateway.Tests.Fixtures.{entry, registry}

abbrev busy : List Event
busy = requested "a" ∷ requested "a" ∷ finished "a" ∷ requested "a" ∷ []

slots_bounded_example :
    (count "a" (serve busy (record { registry = registry; held = [] })).held ≤ 1)
    × ((try_acquire_stream "a" (serve busy (record { registry = registry; held = [] })).registry).0
        ≡ err (stream_capacity_exhausted "a" 1 1))
unfolding lookup serve start finish try_acquire_stream drop_permit insert
slots_bounded_example = slots_bounded registry "a" entry busy refl refl

-- The streams above leave the agent without a permit.
slots_taken : (serve busy (record { registry = registry; held = [] })).held ≡ "a" ∷ []
unfolding lookup serve start finish try_acquire_stream drop_permit insert
slots_taken = refl
