-- ===== src/Stream/Poll/Order.antt =====
-- stream.rs: what the order of polls means to a stream and to its two sides.
use crabby_proxy.Prelude.{◌≡◌, refl, ap, ◌∙◌, List, [], ◌∷◌, ◌⊎◌, inl, inr}
use crabby_proxy.Stream.Poll.{AsyncRead, AsyncWrite}
use crabby_proxy.Stream.Poll.Client.{ClientStream, plain, tls, client_reader, client_writer}
use crabby_proxy.Stream.Poll.Tunnel.{TunnelStream, tunnel_reader, tunnel_writer}
use crabby_proxy.Stream.Poll.Calls.{
  ReadCall, WriteCall, write, flush, shutdown, ReadAnswer, WriteAnswer, call_read, call_write,
  call_either, run_calls, lefts, rights,
}

abbrev after {ℓ κ} : {A : Type ℓ} {S : Type κ} → A → List A × S → List A × S
after a (answers, s) = (a ∷ answers, s)

-- A call that does to `f t` what another does to `t`.
run_calls-wrapped {ℓ κ η μ} :
    {C : Type ℓ} {A : Type κ} {S : Type η} {T : Type μ} (call : C → S → A × S)
    (inner : C → T → A × T) (f : T → S)
    → ((c : C) (t : T) → call c (f t) ≡ ((inner c t).0, f (inner c t).1))
    → (calls : List C) (t : T)
    → run_calls call calls (f t) ≡ ((run_calls inner calls t).0, f (run_calls inner calls t).1)
run_calls-wrapped call inner f step [] t = refl
run_calls-wrapped call inner f step (c ∷ calls) t =
    ap (λ r. after r.0 (run_calls call calls r.1)) (step c t)
    ∙ ap (λ r. after (inner c t).0 r) (run_calls-wrapped call inner f step calls (inner c t).1)

module _ {ℓ κ} {A : Type ℓ} {B : Type κ} (tcp_read : AsyncRead A) (tls_read : AsyncRead B)
    (tcp_write : AsyncWrite A) (tls_write : AsyncWrite B) where
  abbrev pub call_client :
      ReadCall ⊎ WriteCall → ClientStream A B → (ReadAnswer ⊎ WriteAnswer) × ClientStream A B
  call_client = call_either (client_reader tcp_read tls_read) (client_writer tcp_write tls_write)

  -- The calls on the stream inside.
  abbrev pub on_inside :
      List (ReadCall ⊎ WriteCall)
      → ClientStream A B
      → List (ReadAnswer ⊎ WriteAnswer) × ClientStream A B
  on_inside calls (plain s) =
      let (answers, s') = run_calls (call_either tcp_read tcp_write) calls s in (answers, plain s')
  on_inside calls (tls s) =
      let (answers, s') = run_calls (call_either tls_read tls_write) calls s in (answers, tls s')

  call_client-plain :
      (c : ReadCall ⊎ WriteCall) (s : A)
      → call_client c (plain s)
        ≡ ((call_either tcp_read tcp_write c s).0, plain (call_either tcp_read tcp_write c s).1)
  unfolding client_reader client_writer call_either call_read call_write
  call_client-plain (inl c) s = refl
  call_client-plain (inr (write cx bs)) s = refl
  call_client-plain (inr (flush cx)) s = refl
  call_client-plain (inr (shutdown cx)) s = refl

  call_client-tls :
      (c : ReadCall ⊎ WriteCall) (s : B)
      → call_client c (tls s)
        ≡ ((call_either tls_read tls_write c s).0, tls (call_either tls_read tls_write c s).1)
  unfolding client_reader client_writer call_either call_read call_write
  call_client-tls (inl c) s = refl
  call_client-tls (inr (write cx bs)) s = refl
  call_client-tls (inr (flush cx)) s = refl
  call_client-tls (inr (shutdown cx)) s = refl

  -- A sequence of polls of a `ClientStream` answers and leaves what it does on the stream inside, which stays
  -- what it is, over plain TCP or over TLS.
  pub run_calls-on_inside :
      (calls : List (ReadCall ⊎ WriteCall)) (s : ClientStream A B)
      → run_calls call_client calls s ≡ on_inside calls s
  run_calls-on_inside calls (plain s) =
      run_calls-wrapped call_client (call_either tcp_read tcp_write) plain call_client-plain calls s
  run_calls-on_inside calls (tls s) =
      run_calls-wrapped call_client (call_either tls_read tls_write) tls call_client-tls calls s

-- A sequence of calls on a `TunnelStream`, with its two sides on their own.
pub record Separate {ℓ κ} {R : Type ℓ} {W : Type κ} (reader : AsyncRead R) (writer : AsyncWrite W)
    (calls : List (ReadCall ⊎ WriteCall)) (t : TunnelStream R W)
    (r : List (ReadAnswer ⊎ WriteAnswer) × TunnelStream R W) : Type (ℓ ⊔ κ) where
  pub reads : run_calls (call_read reader) (lefts calls) t.read ≡ (lefts r.0, r.1.read)
  pub writes : run_calls (call_write writer) (rights calls) t.write ≡ (rights r.0, r.1.write)

module _ {ℓ κ} {R : Type ℓ} {W : Type κ} (reader : AsyncRead R) (writer : AsyncWrite W) where
  -- However reads and writes of a `TunnelStream` alternate: its reader answers the reads as if there were
  -- no writes, its writer answers the polls to write, flush and shut down as if there were no reads, and
  -- each ends as it would on its own.
  pub run_calls-Separate :
      (calls : List (ReadCall ⊎ WriteCall)) (t : TunnelStream R W)
      → Separate reader writer calls t
          (run_calls (call_either (tunnel_reader reader) (tunnel_writer writer)) calls t)
  unfolding tunnel_reader tunnel_writer call_either call_read call_write
  run_calls-Separate [] t = record { reads = refl; writes = refl }
  run_calls-Separate (inl c ∷ calls) t =
      let (a, read) = call_read reader c t.read in
      let rest = run_calls-Separate calls (record t { read = read }) in
      record { reads = ap (λ r. after a r) rest.reads; writes = rest.writes }
  run_calls-Separate (inr (write cx bs) ∷ calls) t =
      let (a, sink) = call_write writer (write cx bs) t.write in
      let rest = run_calls-Separate calls (record t { write = sink }) in
      record { reads = rest.reads; writes = ap (λ r. after a r) rest.writes }
  run_calls-Separate (inr (flush cx) ∷ calls) t =
      let (a, sink) = call_write writer (flush cx) t.write in
      let rest = run_calls-Separate calls (record t { write = sink }) in
      record { reads = rest.reads; writes = ap (λ r. after a r) rest.writes }
  run_calls-Separate (inr (shutdown cx) ∷ calls) t =
      let (a, sink) = call_write writer (shutdown cx) t.write in
      let rest = run_calls-Separate calls (record t { write = sink }) in
      record { reads = rest.reads; writes = ap (λ r. after a r) rest.writes }
