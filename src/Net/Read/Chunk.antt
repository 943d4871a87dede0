-- ===== src/Net/Read/Chunk.antt =====
-- One `read` of a stream whose peer closes it without a failure.
use crabby_proxy.Prelude.{
  ◌≤◌, ℕ, zero, suc, ◌≡◌, ◌⊎◌, inl, inr, refl, sym, ap, ◌∙◌, none, List, [], ◌∷◌, ◌++◌, take, drop,
  append_assoc, arith,
}
use crabby_proxy.Net.{Stream, Event, arrive, pause, fail}
use crabby_proxy.Net.Io.{done}
use crabby_proxy.Net.Read.{read, await, bytes, closed, peek_outcome, read_stream, restock, starved}
use crabby_proxy.Net.Read.Delivery.{
  Untouched, delivered, delivered_from, await_enough, settle-delivered, NoFail, settle-NoFail,
  pauses, settle-pauses,
}

record First (ready : List ℕ) (es : List Event) : Type 0 where
  head : ℕ
  tail : List ℕ
  later : List Event
  got : await 1 none ready es ≡ bytes (head ∷ tail) later none
  all : (head ∷ tail) ++ delivered_from later ≡ ready ++ delivered_from es
  calm : NoFail later
  sooner : pauses later ≤ pauses es

await_one :
    (ready : List ℕ) (es : List Event)
    → NoFail es
    → ((ready ++ delivered_from es ≡ []) × (await 1 none ready es ≡ closed none)) ⊎ First ready es
unfolding await delivered_from pauses
await_one (b ∷ bs) es c = inr (record {
  head = b;
  tail = bs;
  later = es;
  got = await_enough 1 none (b ∷ bs) es (ground arith);
  all = refl;
  calm = c;
  sooner = omega arith;
})
await_one [] [] c = inl (refl, refl)
await_one [] (arrive bs ∷ es) c = elim (await_one bs es c) [
  | inl (e, a) ↦ inl (e, a)
  | inr f ↦ inr (record {
    head = f.head;
    tail = f.tail;
    later = f.later;
    got = f.got;
    all = f.all;
    calm = f.calm;
    sooner = omega (arith, f.sooner);
  })
]
await_one [] (pause t ∷ es) c = elim (await_one [] es c) [
  | inl (e, a) ↦ inl (e, a)
  | inr f ↦ inr (record {
    head = f.head;
    tail = f.tail;
    later = f.later;
    got = f.got;
    all = f.all;
    calm = f.calm;
    sooner = omega (arith, f.sooner);
  })
]
await_one [] (fail e ∷ es) c = absurd c

pub take-drop {ℓ} : {A : Type ℓ} (n : ℕ) (xs : List A) → take n xs ++ drop n xs ≡ xs
take-drop zero xs = refl
take-drop (suc n) [] = refl
take-drop (suc n) (x ∷ xs) = ap (λ ys. x ∷ ys) (take-drop n xs)

-- What a read of up to `suc n` bytes got, and what it left.
pub record Chunk (n : ℕ) (s : Stream) : Type 0 where
  pub head : ℕ
  pub tail : List ℕ
  pub after : Stream
  pub got : read (suc n) s ≡ (done (head ∷ tail), after)
  pub all : (head ∷ tail) ++ delivered after ≡ delivered s
  pub calm : NoFail after.incoming
  pub untouched : Untouched s after

pub record AtEnd (n : ℕ) (s : Stream) : Type 0 where
  pub after : Stream
  pub got : read (suc n) s ≡ (done [], after)
  pub all : delivered s ≡ []
  pub over : delivered after ≡ []
  pub calm : NoFail after.incoming
  pub untouched : Untouched s after

pub read_cases :
    (n : ℕ) (s : Stream) → s.deadline ≡ none → NoFail s.incoming → AtEnd n s ⊎ Chunk n s
unfolding read peek_outcome read_stream starved delivered delivered_from restock pauses
read_cases n s idle calm = elim (await_one s.ready s.incoming calm) [
  | inl (e, a) ↦
      let w : await 1 s.deadline s.ready s.incoming ≡ closed none =
        ap (λ d. await 1 d s.ready s.incoming) idle ∙ a in
      inl (record {
        after = read_stream (suc n) (closed none) s;
        got = ap (λ x. (peek_outcome (suc n) x, read_stream (suc n) x s)) w;
        all = e;
        over = refl;
        calm = tt;
        untouched = record {
          kind = refl;
          sent = refl;
          fates = refl;
          deadline = refl;
          is_shut = refl;
          calm = λ c. tt;
          sooner = omega arith;
        };
      })
  | inr f ↦
      let w : await 1 s.deadline s.ready s.incoming ≡ bytes (f.head ∷ f.tail) f.later none =
        ap (λ d. await 1 d s.ready s.incoming) idle ∙ f.got in
      inr (record {
        head = f.head;
        tail = take n f.tail;
        after = restock (drop n f.tail) f.later none s;
        got = ap (λ x. (peek_outcome (suc n) x, read_stream (suc n) x s)) w;
        all =
            ap (λ xs. (f.head ∷ take n f.tail) ++ xs) (settle-delivered (drop n f.tail) f.later)
            ∙ ap (λ xs. f.head ∷ xs)
                (sym (append_assoc (take n f.tail) (drop n f.tail) (delivered_from f.later))
                  ∙ ap (λ xs. xs ++ delivered_from f.later) (take-drop n f.tail))
            ∙ f.all;
        calm = settle-NoFail (drop n f.tail) f.later f.calm;
        untouched = record {
          kind = refl;
          sent = refl;
          fates = refl;
          deadline = sym idle;
          is_shut = refl;
          calm = λ c. settle-NoFail (drop n f.tail) f.later f.calm;
          sooner = omega (arith, settle-pauses (drop n f.tail) f.later, f.sooner);
        };
      })
]
