-- ===== src/Net/Read/Ready.antt =====
-- `read_exact` of bytes that have arrived, whatever time limit is around it.
use crabby_proxy.Prelude.{
  ℕ, ◌≤◌, ◌≡◌, refl, sym, ap, subst, ◌∙◌, List, [], ◌∷◌, ◌++◌, length, take, drop, append_assoc,
  append-nil, arith,
}
use crabby_proxy.Net.{Stream, Event, arrive, pause, fail}
use crabby_proxy.Net.Io.{done}
use crabby_proxy.Net.Read.{
  read, read_exact, await, bytes, exact_outcome, peek_outcome, read_stream, restock, settle,
}
use crabby_proxy.Net.Read.Delivery.{
  delivered, delivered_from, Untouched, await_enough, settle-delivered, settle-NoFail,
  settle-pauses, take-prefix, drop-prefix, length-prefix-le,
}

settle-front :
    (ready : List ℕ) (es : List Event) → (extra : List ℕ) × ((settle ready es).0 ≡ ready ++ extra)
unfolding settle
settle-front ready [] = ([], sym (append-nil ready))
settle-front ready (arrive bs ∷ es) =
    let (extra, e) = settle-front (ready ++ bs) es in (bs ++ extra, e ∙ append_assoc ready bs extra)
settle-front ready (pause t ∷ es) = ([], sym (append-nil ready))
settle-front ready (fail e ∷ es) = ([], sym (append-nil ready))

-- `bs` was taken, and `rest` is still there.
pub record Took (s t : Stream) (bs rest : List ℕ) : Type 0 where
  pub more : List ℕ
  pub ready : t.ready ≡ rest ++ more
  pub left : delivered s ≡ bs ++ delivered t
  pub untouched : Untouched s t

pub read_ready :
    (s : Stream) (bs rest more : List ℕ)
    → s.ready ≡ bs ++ (rest ++ more)
    → (t : Stream) × (read_exact (length bs) s ≡ (done bs, t)) × Took s t bs rest
unfolding read_exact restock delivered
read_ready s bs rest more e =
    let n : ℕ = length bs in
    let t : Stream = restock (drop n s.ready) s.incoming s.deadline s in
    let enough : n ≤ length s.ready =
      subst (λ r. n ≤ length r) (sym e) (length-prefix-le bs (rest ++ more)) in
    let got : await n s.deadline s.ready s.incoming ≡ bytes s.ready s.incoming s.deadline =
      await_enough n s.deadline s.ready s.incoming (ground arith) in
    let front : take n s.ready ≡ bs =
      take-prefix bs (rest ++ more) s.ready [] enough (append-nil s.ready ∙ e) in
    let back : drop n s.ready ≡ rest ++ more =
      sym (append-nil (drop n s.ready))
      ∙ drop-prefix bs (rest ++ more) s.ready [] enough (append-nil s.ready ∙ e) in
    let (extra, x) = settle-front (drop n s.ready) s.incoming in
    (
      t,
      ap (λ a. (exact_outcome n a, read_stream n a s)) got ∙ ap (λ xs. (done xs, t)) front,
      record {
        more = more ++ extra;
        ready = x ∙ ap (λ xs. xs ++ extra) back ∙ append_assoc rest more extra;
        left =
            ap (λ r. r ++ delivered_from s.incoming) e
            ∙ append_assoc bs (rest ++ more) (delivered_from s.incoming)
            ∙ ap (λ xs. bs ++ xs)
                (ap (λ r. r ++ delivered_from s.incoming) (sym back)
                  ∙ sym (settle-delivered (drop n s.ready) s.incoming));
        untouched = record {
          kind = refl;
          sent = refl;
          fates = refl;
          deadline = refl;
          is_shut = refl;
          calm = settle-NoFail (drop n s.ready) s.incoming;
          sooner = omega (arith, settle-pauses (drop n s.ready) s.incoming);
        };
      },
    )

-- Of bytes that have arrived, `read` takes what `read_exact` does.
read-read_exact :
    (s : Stream) (b : ℕ) (bs more : List ℕ)
    → s.ready ≡ (b ∷ bs) ++ more
    → read (length (b ∷ bs)) s ≡ read_exact (length (b ∷ bs)) s
unfolding read read_exact
read-read_exact s b bs more e =
    let n : ℕ = length (b ∷ bs) in
    let enough : n ≤ length s.ready =
      subst (λ r. n ≤ length r) (sym e) (length-prefix-le (b ∷ bs) more) in
    let first : await 1 s.deadline s.ready s.incoming ≡ bytes s.ready s.incoming s.deadline =
      await_enough 1 s.deadline s.ready s.incoming (ground arith) in
    let all : await n s.deadline s.ready s.incoming ≡ bytes s.ready s.incoming s.deadline =
      await_enough n s.deadline s.ready s.incoming (ground arith) in
    ap (λ a. (peek_outcome n a, read_stream n a s)) first
    ∙ sym (ap (λ a. (exact_outcome n a, read_stream n a s)) all)

pub read_some :
    (s : Stream) (b : ℕ) (bs rest more : List ℕ)
    → s.ready ≡ (b ∷ bs) ++ (rest ++ more)
    → (t : Stream) × (read (length (b ∷ bs)) s ≡ (done (b ∷ bs), t)) × Took s t (b ∷ bs) rest
read_some s b bs rest more e =
    let (t, q, a) = read_ready s (b ∷ bs) rest more e in
    (t, read-read_exact s b bs (rest ++ more) e ∙ q, a)
