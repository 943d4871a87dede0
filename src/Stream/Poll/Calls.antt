-- ===== src/Stream/Poll/Calls.antt =====
-- stream.rs: sequences of polls of a stream, and what they answer.
use crabby_proxy.Prelude.{ℕ, List, [], ◌∷◌, Result, ◌⊎◌, inl, inr}
use crabby_proxy.Net.{IoError}
use crabby_proxy.Stream.Poll.{Poll, Context, ReadBuf, AsyncRead, AsyncWrite}

pub record ReadCall : Type 0 where
  pub context : Context
  pub buf : ReadBuf

pub data WriteCall : Type 0 where
  write : Context → List ℕ → WriteCall
  flush shutdown : Context → WriteCall

pub record ReadAnswer : Type 0 where
  pub answer : Poll (Result (Unit {0}) IoError)
  pub buf : ReadBuf

pub data WriteAnswer : Type 0 where
  written : Poll (Result ℕ IoError) → WriteAnswer
  flushed is_shut : Poll (Result (Unit {0}) IoError) → WriteAnswer

module _ {ℓ} {S : Type ℓ} where
  unfoldable pub call_read : AsyncRead S → ReadCall → S → ReadAnswer × S
  call_read reader c s =
      let (answer, buf, s') = reader.poll_read c.context c.buf s in
      (record { answer = answer; buf = buf }, s')

  unfoldable pub call_write : AsyncWrite S → WriteCall → S → WriteAnswer × S
  call_write writer (write cx bs) s = let (r, s') = writer.poll_write cx bs s in (written r, s')
  call_write writer (flush cx) s = let (r, s') = writer.poll_flush cx s in (flushed r, s')
  call_write writer (shutdown cx) s = let (r, s') = writer.poll_shutdown cx s in (is_shut r, s')

  -- A call of either trait.
  unfoldable pub call_either :
      AsyncRead S → AsyncWrite S → ReadCall ⊎ WriteCall → S → (ReadAnswer ⊎ WriteAnswer) × S
  unfolding call_read call_write
  call_either reader writer (inl c) s = let (a, s') = call_read reader c s in (inl a, s')
  call_either reader writer (inr c) s = let (a, s') = call_write writer c s in (inr a, s')

  -- The answers of a sequence of calls, and the stream that they leave.
  abbrev pub run_calls {κ η} : {C : Type κ} {A : Type η} → (C → S → A × S) → List C → S → List A × S
  run_calls call [] s = ([], s)
  run_calls call (c ∷ cs) s =
      let (a, s') = call c s in let (answers, s'') = run_calls call cs s' in (a ∷ answers, s'')

-- The left ones.
abbrev pub lefts {ℓ κ} : {A : Type ℓ} {B : Type κ} → List (A ⊎ B) → List A
lefts [] = []
lefts (inl a ∷ xs) = a ∷ lefts xs
lefts (inr b ∷ xs) = lefts xs

abbrev pub rights {ℓ κ} : {A : Type ℓ} {B : Type κ} → List (A ⊎ B) → List B
rights [] = []
rights (inl a ∷ xs) = rights xs
rights (inr b ∷ xs) = b ∷ rights xs
