-- ===== src/Proxy/Client/Tls.antt =====
-- proxy/listener.rs, `handle_client`: a CONNECT request over TLS.
use crabby_proxy.Prelude.{
  ℕ, ◌≡◌, refl, sym, ap, ◌∙◌, Bool, false, Option, some, List, [], ◌∷◌, ◌++◌, drop, append-nil,
  Result, ok, err,
}
use crabby_proxy.Text.{codes, starts_with}
use crabby_proxy.Text.Split.Pieces.{Lacks}
use crabby_proxy.Text.Split.Words.{IsPrintable, all_printable-IsPrintable}
use crabby_proxy.App.{AppState, TlsAcceptor}
use crabby_proxy.Net.{IoError, SocketAddr, Stream, tls}
use crabby_proxy.Net.Io.{Outcome, done, failed, timed, continue}
use crabby_proxy.Net.Common.{peek_or_read, peek_or_read_as, invalid}
use crabby_proxy.Net.Read.{read}
use crabby_proxy.Net.Read.Delivery.{delivered, NoFail}
use crabby_proxy.Net.Read.Ready.{read_some}
use crabby_proxy.Net.Read.Settled.{IsSettled}
use crabby_proxy.Net.Read.Steps.{Delivers, Moves, Moves-trans, write_step}
use crabby_proxy.Utils.{crlf}
use crabby_proxy.Proxy.Protocol.{http, https}
use crabby_proxy.Proxy.Detect.{detect_client_protocol, detect_protocol, is_http_method, zero_filled}
use crabby_proxy.Proxy.Target.{parse_target_by_protocol}
use crabby_proxy.Proxy.Target.Text.Connect.{connect_line}
use crabby_proxy.Proxy.Target.Text.Schemeless.{parse_http_target_from_stream-schemeless}
use crabby_proxy.Proxy.Target.Text.Request.{TargetRead-Moves}
use crabby_proxy.Proxy.Client.{
  Connector, ClientError, handle_client, after_detection, admit_upgraded, upgraded, admit, serve,
  redetect, redetected,
}
use crabby_proxy.Proxy.Client.Replies.{send_error_response}
use crabby_proxy.Proxy.Client.Admitted.{detect-IsSettled}
use crabby_proxy.Proxy.Client.Faults.{RefusedWith, serve-failed}

cut_behind : (a b c d : ℕ) (xs ys : List ℕ) → a ∷ b ∷ c ∷ d ∷ xs ≡ a ∷ b ∷ c ∷ d ∷ ys → xs ≡ ys
cut_behind a b c d xs ys e = ap (λ zs. drop 4 zs) e

-- With the address of the peer at hand, a stream over TLS is read.
peek_or_read-tls :
    (n : ℕ) (s : Stream) (addr : SocketAddr)
    → s.kind ≡ tls
    → s.peer_addr ≡ ok addr
    → peek_or_read n s ≡ read n s
unfolding peek_or_read
peek_or_read-tls n s addr k p = ap (λ kind. peek_or_read_as kind n s) k ∙ ap asked p
  where
    asked : Result SocketAddr IoError → Outcome IoError (List ℕ) × Stream
    asked r =
        let (a, s') = elim r as (λ _. Outcome IoError SocketAddr × Stream) [
          | ok a ↦ (done a, s)
          | err e ↦ (failed e, s)
        ] in
        continue a (λ _. read n) s'

-- The second detection takes the first four bytes of a request over TLS.
redetect_tls :
    (s : Stream) (addr : SocketAddr) (more rest : List ℕ)
    → s.kind ≡ tls
    → s.peer_addr ≡ ok addr
    → s.ready ≡ codes "CONN" ++ more
    → Delivers s (codes "CONN" ++ rest)
    → (t : Stream) × (redetect s ≡ (http, t)) × Moves s t rest []
unfolding redetect redetected detect_protocol is_http_method starts_with zero_filled delivered
redetect_tls s addr more rest k p e d =
    let timed_s = record s { deadline = some 5000 } in
    let (t, q, a) = read_some timed_s b'C' (codes "ONN") [] more e in
    let looked : peek_or_read 4 timed_s ≡ (done (codes "CONN"), t) =
      peek_or_read-tls 4 timed_s addr k p ∙ q in
    (
      record t { deadline = s.deadline },
      ap
          (λ (r : Outcome IoError (List ℕ) × Stream).
            (redetected (timed {F = ClientError} r.0), record r.1 { deadline = s.deadline }))
          looked,
      record {
        delivers = record {
          idle = d.idle;
          writable = a.untouched.fates ∙ d.writable;
          all = cut_behind b'C' b'O' b'N' b'N' (delivered t) rest (sym a.left ∙ d.all);
        };
        wrote = a.untouched.sent ∙ sym (append-nil s.sent);
        kind = a.untouched.kind;
        calm = a.untouched.calm;
        sooner = a.untouched.sooner;
      },
    )

serve_tls :
    (connect : Connector) (schedule : List Bool) (s : Stream) (addr : SocketAddr)
    (more hs post : List ℕ) (h port : ℕ)
    → s.kind ≡ tls
    → s.peer_addr ≡ ok addr
    → s.ready ≡ codes "CONN" ++ more
    → NoFail s.incoming
    → IsPrintable (h ∷ hs)
    → Lacks b':' (h ∷ hs)
    → Delivers s (connect_line (h ∷ hs) port ++ 10 ∷ post)
    → RefusedWith
        (invalid (codes "Invalid HTTP URL"))
        (serve connect schedule s)
        (s.sent ++ (codes "HTTP/1.1 400 Bad Request" ++ crlf ++ crlf))
unfolding send_error_response parse_target_by_protocol
serve_tls connect schedule s addr more hs post h port k p r calm print l d =
    let (t, e1, m1) = redetect_tls s addr more _ k p r d in
    let (u, e2, x) =
      parse_http_target_from_stream-schemeless t b'E' (codes "CT") h hs port post m1.delivers.idle
        (m1.calm calm) (all_printable-IsPrintable (codes "ECT") refl) (λ e. cc) print l
        m1.delivers.all in
    let reads = TargetRead-Moves t u _ post m1.delivers x in
    let (v, e3, m3) =
      write_step u (codes "HTTP/1.1 400 Bad Request" ++ crlf ++ crlf) x.rest reads.delivers in
    let refused = serve-failed connect schedule http s t u v _ e1 e2 e3 in
    let moved = Moves-trans s u v _ _ _ _ (Moves-trans s t u _ _ _ _ m1 reads) m3 in
    record { ending = refused.ending; target = refused.target; sent = refused.sent ∙ moved.wrote }

detect_tls :
    (s : Stream) (bs : List ℕ)
    → IsSettled s.incoming
    → s.ready ≡ 0x16 ∷ bs
    → detect_client_protocol s ≡ (done https, s)
unfolding detect_protocol is_http_method starts_with zero_filled
detect_tls s bs h e = detect-IsSettled s 0x16 bs h e

-- With no credentials required, `handle_client` serves no CONNECT request over TLS. The client's first byte, 22,
-- has arrived, with all that comes before the next pause. Once the handshake has given a TLS stream that
-- has the address of its peer, does not fail and takes what is written, and on which at least four bytes
-- have arrived of the line "CONNECT host:port HTTP/1.1", with a host in printable ASCII without a colon, the
-- second detection takes these four. The rest is no valid request: the client gets the reply 400, and it
-- is connected to no target.
pub handle_client-tls :
    (decode : List ℕ → Option (List ℕ)) (connect : Connector) (schedule : List Bool)
    (state : AppState) (s t : Stream) (accept : TlsAcceptor) (addr : SocketAddr)
    (bs more hs post : List ℕ) (h port : ℕ)
    → state.require_creds ≡ false
    → state.tls_acceptor ≡ some accept
    → s.ready ≡ 0x16 ∷ bs
    → IsSettled s.incoming
    → accept s ≡ ok t
    → t.kind ≡ tls
    → t.peer_addr ≡ ok addr
    → t.ready ≡ codes "CONN" ++ more
    → NoFail t.incoming
    → IsPrintable (h ∷ hs)
    → Lacks b':' (h ∷ hs)
    → Delivers t (connect_line (h ∷ hs) port ++ 10 ∷ post)
    → RefusedWith
        (invalid (codes "Invalid HTTP URL"))
        (handle_client decode connect schedule state s)
        (t.sent ++ (codes "HTTP/1.1 400 Bad Request" ++ crlf ++ crlf))
unfolding handle_client after_detection admit_upgraded upgraded admit
handle_client-tls decode connect schedule state s t accept addr bs more hs post h port free acceptor
      r settled shook k p ready calm print l d =
    rw (detect_tls s bs settled r) (
      rw acceptor (
        rw shook (
          rw free
            (serve_tls connect schedule t addr more hs post h port k p ready calm print l d))))
