-- ===== src/Net/Read/Untimed.antt =====
-- Calls without a time limit around them, on any stream: they return or fail.
use crabby_proxy.Prelude.{
  ℕ, ◌≡◌, refl, ap, Bool-cases, inl, inr, none, List, [], ◌∷◌, leb, length, take, ◌++◌,
}
use crabby_proxy.Net.{IoError, Stream, Event, arrive, pause, fail, Fate, taken, broken}
use crabby_proxy.Net.Io.{Outcome, done, failed}
use crabby_proxy.Net.Read.{
  Arrival, bytes, closed, lost, late, await, read, peek_outcome, read_stream, restock, starved,
  write_all, write_fate, shutdown, shut_fate,
}

NotLate : Arrival → Type 0
NotLate (bytes ready es d) = d ≡ none
NotLate (closed d) = d ≡ none
NotLate (lost e es d) = Unit {0}
NotLate (late es) = ⊥

await-NotLate : (n : ℕ) (ready : List ℕ) (es : List Event) → NotLate (await n none ready es)
unfolding await NotLate
await-NotLate n ready [] = elim (Bool-cases (leb n (length ready))) [
  | inl yet ↦ rw yet refl
  | inr short ↦ rw short refl
]
await-NotLate n ready (arrive bs ∷ es) = elim (Bool-cases (leb n (length ready))) [
  | inl yet ↦ rw yet refl
  | inr short ↦ rw short (await-NotLate n (ready ++ bs) es)
]
await-NotLate n ready (pause t ∷ es) = elim (Bool-cases (leb n (length ready))) [
  | inl yet ↦ rw yet refl
  | inr short ↦ rw short (await-NotLate n ready es)
]
await-NotLate n ready (fail e ∷ es) = elim (Bool-cases (leb n (length ready))) [
  | inl yet ↦ rw yet refl
  | inr short ↦ rw short tt
]

-- What a read comes to.
pub data Untimed (size : ℕ) (s : Stream) : Type 0 where
  at_end : (t : Stream) → read size s ≡ (done [], t) → t.deadline ≡ none → Untimed size s
  some_bytes :
      (b : ℕ) (bs : List ℕ) (t : Stream)
      → read size s ≡ (done (b ∷ bs), t)
      → t.deadline ≡ none
      → Untimed size s
  fault : (e : IoError) (t : Stream) → read size s ≡ (failed e, t) → Untimed size s

read-arrival :
    (size : ℕ) (s : Stream) (a : Arrival)
    → await 1 s.deadline s.ready s.incoming ≡ a
    → read size s ≡ (peek_outcome size a, read_stream size a s)
unfolding read
read-arrival size s a e = ap (λ x. (peek_outcome size x, read_stream size x s)) e

returned :
    (size : ℕ) (s : Stream) (got : List ℕ) (t : Stream)
    → read size s ≡ (done got, t)
    → t.deadline ≡ none
    → Untimed size s
returned size s [] t e d = at_end t e d
returned size s (b ∷ bs) t e d = some_bytes b bs t e d

arrived :
    (size : ℕ) (s : Stream) (a : Arrival)
    → s.deadline ≡ none
    → await 1 s.deadline s.ready s.incoming ≡ a
    → NotLate a
    → Untimed size s
unfolding NotLate peek_outcome read_stream restock starved
arrived size s (bytes ready es d) idle e n =
    returned size s (take size ready) _ (read-arrival size s _ e) n
arrived size s (closed d) idle e n = at_end _ (read-arrival size s _ e) idle
arrived size s (lost x es d) idle e n = fault x _ (read-arrival size s _ e)
arrived size s (late es) idle e n = absurd n

pub read-Untimed : (size : ℕ) (s : Stream) → s.deadline ≡ none → Untimed size s
read-Untimed size s idle =
    arrived size s _ idle (ap (λ d. await 1 d s.ready s.incoming) idle)
      (await-NotLate 1 s.ready s.incoming)

-- What a call that writes comes to.
pub data Wrote (r : Outcome IoError (Unit {0}) × Stream) : Type 0 where
  all_taken : (t : Stream) → r ≡ (done tt, t) → Wrote r
  refused : (e : IoError) (t : Stream) → r ≡ (failed e, t) → Wrote r

pub write_all-Wrote : (bs : List ℕ) (s : Stream) → Wrote (write_all bs s)
unfolding write_all
write_all-Wrote bs s = by_fate s.fates
  where
    by_fate : (fs : List Fate) → Wrote (write_fate bs fs s)
    by_fate [] = all_taken _ refl
    by_fate (taken ∷ fs) = all_taken _ refl
    by_fate (broken k e ∷ fs) = refused e _ refl

pub shutdown-Wrote : (s : Stream) → Wrote (shutdown s)
unfolding shutdown
shutdown-Wrote s = by_fate s.fates
  where
    by_fate : (fs : List Fate) → Wrote (shut_fate fs s)
    by_fate [] = all_taken _ refl
    by_fate (taken ∷ fs) = all_taken _ refl
    by_fate (broken k e ∷ fs) = refused e _ refl
