-- ===== src/Tests/Handshakes.antt =====
-- proxy/relay.rs: a proxy that replies in pieces, and one that closes too early.
use crabby_proxy.Prelude.{◌≡◌, refl, [], ◌∷◌, ◌++◌, length, length-append, ap, arith}
use crabby_proxy.Text.{codes}
use crabby_proxy.Net.{Stream, arrive, pause}
use crabby_proxy.Net.Io.{elapsed}
use crabby_proxy.Net.Read.Delivery.{delivered, delivered_from}
use crabby_proxy.Proxy.Protocol.{ProxyTarget}
use crabby_proxy.Proxy.Relay.{hand_shake, blank_line}
use crabby_proxy.Proxy.Relay.Reply.{Answered, NoBlank, hand_shake-Answered, hand_shake-waits}
use crabby_proxy.Tests.Streams.{stream_of}

abbrev upstream : Stream
upstream =
    stream_of (codes "HTTP/1.1 200")
      (pause 5 ∷ arrive (codes " OK" ++ 13 ∷ 10 ∷ []) ∷ arrive (13 ∷ 10 ∷ 65 ∷ []) ∷ [])

abbrev silent : Stream
silent = stream_of (65 ∷ []) (pause 5 ∷ arrive (13 ∷ 10 ∷ []) ∷ [])

abbrev site : ProxyTarget
site = record { host = codes "a.org"; port = 443 }

hand_shake-Answered_example :
    Answered (0 ∷ 0 ∷ []) 100 site upstream (hand_shake (0 ∷ 0 ∷ []) 100 21 site upstream)
unfolding delivered delivered_from
hand_shake-Answered_example =
    hand_shake-Answered (0 ∷ 0 ∷ []) 100 21 site upstream b'H' (codes "TTP/1.1 200 OK") (65 ∷ [])
      refl tt refl refl (ground arith)

silent-NoBlank : NoBlank (delivered silent)
unfolding delivered delivered_from
silent-NoBlank front rest e =
    let size : 3 ≡ length (front ++ blank_line ++ rest) = ap (λ xs. length xs) e in
    omega (arith, size, length-append (front ++ blank_line) rest, length-append front blank_line)

hand_shake-waits_example : (hand_shake [] 100 1000 site silent).0 ≡ elapsed
hand_shake-waits_example = hand_shake-waits [] 100 1000 site silent refl tt refl silent-NoBlank
