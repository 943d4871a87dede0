-- ===== src/Net/Read/Delivery.antt =====
-- What a peer delivers reaches the program, however it is cut into pieces and delayed.
use crabby_proxy.Prelude.{
  ◌+◌, ℕ, ◌≡◌, ◌≤◌, refl, sym, ap, ◌∙◌, true, Bool-cases, inl, inr, Option, none, some, List, [],
  ◌∷◌, ◌++◌, leb, length, take, drop, arith, length-append, append_assoc, append-nil,
}
use crabby_proxy.Net.{Event, arrive, pause, fail, Stream}
use crabby_proxy.Net.Io.{done}
use crabby_proxy.Net.Read.{bytes, await, settle, read_exact, exact_outcome, read_stream, restock}

-- The bytes of a history up to its first failure.
unfoldable pub delivered_from : List Event → List ℕ
delivered_from [] = []
delivered_from (arrive bs ∷ es) = bs ++ delivered_from es
delivered_from (pause t ∷ es) = delivered_from es
delivered_from (fail e ∷ es) = []

unfoldable pub delivered : Stream → List ℕ
unfolding delivered_from
delivered s = s.ready ++ delivered_from s.incoming

pub settle-delivered :
    (ready : List ℕ) (es : List Event)
    → (settle ready es).0 ++ delivered_from (settle ready es).1 ≡ ready ++ delivered_from es
unfolding settle delivered_from
settle-delivered ready [] = refl
settle-delivered ready (arrive bs ∷ es) =
    settle-delivered (ready ++ bs) es ∙ append_assoc ready bs (delivered_from es)
settle-delivered ready (pause t ∷ es) = refl
settle-delivered ready (fail e ∷ es) = refl

-- No failure is to come.
abbrev pub NoFail : List Event → Type 0
NoFail [] = Unit {0}
NoFail (arrive bs ∷ es) = NoFail es
NoFail (pause t ∷ es) = NoFail es
NoFail (fail e ∷ es) = ⊥

pub settle-NoFail : (ready : List ℕ) (es : List Event) → NoFail es → NoFail (settle ready es).1
unfolding settle
settle-NoFail ready [] c = c
settle-NoFail ready (arrive bs ∷ es) c = settle-NoFail (ready ++ bs) es c
settle-NoFail ready (pause t ∷ es) c = c
settle-NoFail ready (fail e ∷ es) c = c

-- The milliseconds in which nothing comes.
unfoldable pub pauses : List Event → ℕ
pauses [] = 0
pauses (arrive bs ∷ es) = pauses es
pauses (pause t ∷ es) = t + pauses es
pauses (fail e ∷ es) = pauses es

pub settle-pauses : (ready : List ℕ) (es : List Event) → pauses (settle ready es).1 ≡ pauses es
unfolding settle pauses
settle-pauses ready [] = refl
settle-pauses ready (arrive bs ∷ es) = settle-pauses (ready ++ bs) es
settle-pauses ready (pause t ∷ es) = refl
settle-pauses ready (fail e ∷ es) = refl

record Awaited (n : ℕ) (ready : List ℕ) (es : List Event) : Type 0 where
  have : List ℕ
  later : List Event
  got : await n none ready es ≡ bytes have later none
  enough : n ≤ length have
  all : have ++ delivered_from later ≡ ready ++ delivered_from es
  calm : NoFail es → NoFail later
  sooner : pauses later ≤ pauses es

pub await_enough :
    (n : ℕ) (d : Option ℕ) (ready : List ℕ) (es : List Event)
    → leb n (length ready) ≡ true
    → await n d ready es ≡ bytes ready es d
unfolding await
await_enough n d ready [] h = rw h
await_enough n d ready (arrive bs ∷ es) h = rw h
await_enough n d ready (fail e ∷ es) h = rw h
await_enough n none ready (pause t ∷ es) h = rw h
await_enough n (some d) ready (pause t ∷ es) h = rw h

at_once :
    (n : ℕ) (ready : List ℕ) (es : List Event) → leb n (length ready) ≡ true → Awaited n ready es
at_once n ready es h = record {
  have = ready;
  later = es;
  got = await_enough n none ready es h;
  enough = ground arith;
  all = refl;
  calm = λ c. c;
  sooner = omega arith;
}

await-Awaited :
    (n : ℕ) (ready : List ℕ) (es : List Event)
    → n ≤ length (ready ++ delivered_from es)
    → Awaited n ready es
unfolding await delivered_from pauses
await-Awaited n ready [] h = at_once n ready [] (ground (arith, append-nil ready))
await-Awaited n ready (fail e ∷ es) h =
    at_once n ready (fail e ∷ es) (ground (arith, append-nil ready))
await-Awaited n ready (pause t ∷ es) h = elim (Bool-cases (leb n (length ready))) [
  | inl yet ↦ at_once n ready (pause t ∷ es) yet
  | inr short ↦
      let w = await-Awaited n ready es h in
      record {
        have = w.have;
        later = w.later;
        got = rw short w.got;
        enough = w.enough;
        all = w.all;
        calm = w.calm;
        sooner = omega (arith, w.sooner);
      }
]
await-Awaited n ready (arrive bs ∷ es) h = elim (Bool-cases (leb n (length ready))) [
  | inl yet ↦ at_once n ready (arrive bs ∷ es) yet
  | inr short ↦
      let w = await-Awaited n (ready ++ bs) es (rw (append_assoc ready bs (delivered_from es)) h) in
      record {
        have = w.have;
        later = w.later;
        got = rw short w.got;
        enough = w.enough;
        all = w.all ∙ append_assoc ready bs (delivered_from es);
        calm = w.calm;
        sooner = omega (arith, w.sooner);
      }
]

-- What a call leaves as it was.
pub record Untouched (s t : Stream) : Type 0 where
  pub kind : t.kind ≡ s.kind
  pub sent : t.sent ≡ s.sent
  pub fates : t.fates ≡ s.fates
  pub deadline : t.deadline ≡ s.deadline
  pub is_shut : t.is_shut ≡ s.is_shut
  pub calm : NoFail s.incoming → NoFail t.incoming
  pub sooner : pauses t.incoming ≤ pauses s.incoming

-- The stream after a call that took everything up to `rest`.
pub record After (s t : Stream) (rest : List ℕ) : Type 0 where
  pub left : delivered t ≡ rest
  pub untouched : Untouched s t

pub take-prefix {ℓ} :
    {A : Type ℓ} (bs rest have later : List A)
    → length bs ≤ length have
    → have ++ later ≡ bs ++ rest
    → take (length bs) have ≡ bs
take-prefix [] rest have later h e = refl
take-prefix (b ∷ bs) rest [] later h e = absurd (omega arith)
take-prefix (b ∷ bs) rest (x ∷ have) later h e = ground (arith, take-prefix bs rest have later)

pub drop-prefix {ℓ} :
    {A : Type ℓ} (bs rest have later : List A)
    → length bs ≤ length have
    → have ++ later ≡ bs ++ rest
    → drop (length bs) have ++ later ≡ rest
drop-prefix [] rest have later h e = e
drop-prefix (b ∷ bs) rest [] later h e = absurd (omega arith)
drop-prefix (b ∷ bs) rest (x ∷ have) later h e = ground (arith, drop-prefix bs rest have later)

restock-After :
    (s : Stream) (ready rest : List ℕ) (es : List Event)
    → s.deadline ≡ none
    → ready ++ delivered_from es ≡ rest
    → (NoFail s.incoming → NoFail es)
    → pauses es ≤ pauses s.incoming
    → After s (restock ready es none s) rest
unfolding restock delivered
restock-After s ready rest es idle e calm sooner = record {
  left = settle-delivered ready es ∙ e;
  untouched = record {
    kind = refl;
    sent = refl;
    fates = refl;
    deadline = sym idle;
    is_shut = refl;
    calm = λ c. settle-NoFail ready es (calm c);
    sooner = omega (arith, settle-pauses ready es, sooner);
  };
}

pub length-prefix-le {ℓ} : {A : Type ℓ} (bs rest : List A) → length bs ≤ length (bs ++ rest)
length-prefix-le bs rest = omega (arith, length-append bs rest)

-- With no `timeout` around it, `read_exact` returns the next bytes that the peer delivers.
pub read_exact_lem :
    (s : Stream) (bs rest : List ℕ)
    → s.deadline ≡ none
    → delivered s ≡ bs ++ rest
    → (t : Stream) × (read_exact (length bs) s ≡ (done bs, t)) × After s t rest
unfolding read_exact delivered restock
read_exact_lem s bs rest idle e = (
  restock (drop (length bs) w.have) w.later none s,
  ap (λ a. (exact_outcome (length bs) a, read_stream (length bs) a s)) awaited
      ∙ ap (λ x. (done x, restock (drop (length bs) w.have) w.later none s))
          (take-prefix bs rest w.have (delivered_from w.later) w.enough (w.all ∙ e)),
  restock-After s _ rest w.later idle
      (drop-prefix bs rest w.have (delivered_from w.later) w.enough (w.all ∙ e)) w.calm w.sooner,
)
  where
    w : Awaited (length bs) s.ready s.incoming
    w = await-Awaited (length bs) s.ready s.incoming (rw e (length-prefix-le bs rest))

    awaited : await (length bs) s.deadline s.ready s.incoming ≡ bytes w.have w.later none
    awaited = ap (λ d. await (length bs) d s.ready s.incoming) idle ∙ w.got
