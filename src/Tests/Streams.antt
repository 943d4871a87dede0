-- ===== src/Tests/Streams.antt =====
-- stream.rs: two streams with a few bytes each, in pieces and with pauses.
use crabby_proxy.Prelude.{ℕ, Bool, refl, true, false, none, List, [], ◌∷◌, ok, arith}
use crabby_proxy.Net.{Stream, plain, v4, Event, arrive, pause}
use crabby_proxy.Net.Read.Delivery.{delivered, delivered_from}
use crabby_proxy.Net.Common.{fuel_of, bytes_from}
use crabby_proxy.Stream.{try_join, bidirectional}
use crabby_proxy.Stream.Join.{Exchanged, IsCalm, try_join-Exchanged}

abbrev pub stream_of : List ℕ → List Event → Stream
stream_of ready incoming = record {
  kind = plain;
  peer_addr = ok (v4 (127 ∷ 0 ∷ 0 ∷ 1 ∷ []) 4000);
  ready = ready;
  incoming = incoming;
  sent = [];
  fates = [];
  is_shut = false;
  deadline = none;
}

abbrev left : Stream
left = stream_of (1 ∷ []) (pause 20 ∷ arrive (2 ∷ 3 ∷ []) ∷ [])

abbrev right : Stream
right = stream_of [] (arrive (7 ∷ []) ∷ [])

left-IsCalm : IsCalm left
left-IsCalm = record { idle = refl; calm = tt; writable = refl }

right-IsCalm : IsCalm right
right-IsCalm = record { idle = refl; calm = tt; writable = refl }

-- The relays take turns.
abbrev schedule : List Bool
schedule = true ∷ false ∷ true ∷ false ∷ true ∷ true ∷ false ∷ []

try_join-Exchanged_example :
    Exchanged (try_join schedule (bidirectional left right)) [] (1 ∷ 2 ∷ 3 ∷ []) 3 [] (7 ∷ []) 1
unfolding delivered delivered_from fuel_of bytes_from
try_join-Exchanged_example =
    try_join-Exchanged schedule left right left-IsCalm right-IsCalm (ground arith) (ground arith)
