-- ===== src/Proxy/Target/Text/Line.antt =====
-- proxy/listener.rs, `parse_http_target_from_stream`: the line that `read_line` reads.
use crabby_proxy.Prelude.{
  ℕ, zero, suc, ◌<◌, ◌≡◌, ◌⊎◌, inl, inr, refl, sym, ap, ◌∙◌, none, List, [], ◌∷◌, ◌++◌, length,
  length-append, append_assoc, arith,
}
use crabby_proxy.Net.{Stream, IoError}
use crabby_proxy.Net.Io.{Outcome, done}
use crabby_proxy.Net.Read.{read}
use crabby_proxy.Net.Read.Delivery.{delivered, NoFail, Untouched}
use crabby_proxy.Net.Read.Chunk.{read_cases}
use crabby_proxy.Text.Split.{split_once}
use crabby_proxy.Text.Split.Pieces.{Lacks, split_once-Lacks, split_once-append}
use crabby_proxy.Proxy.Target.Text.{read_line_bytes, line_end}

-- Where a chunk ends: within the part before the separator, or behind it.
record Short (chunk after pre : List ℕ) (sep : ℕ) (post : List ℕ) : Type 0 where
  left : List ℕ
  front : pre ≡ chunk ++ left
  back : after ≡ left ++ sep ∷ post
  lacks : Lacks sep chunk
  lacks_left : Lacks sep left

record Past (chunk after pre : List ℕ) (sep : ℕ) (post : List ℕ) : Type 0 where
  over : List ℕ
  front : chunk ≡ pre ++ sep ∷ over
  back : post ≡ over ++ after

cut :
    (chunk after pre post : List ℕ) (sep : ℕ)
    → Lacks sep pre
    → chunk ++ after ≡ pre ++ sep ∷ post
    → Short chunk after pre sep post ⊎ Past chunk after pre sep post
cut [] after pre post sep l e =
    inl (record { left = pre; front = refl; back = e; lacks = tt; lacks_left = l })
cut (c ∷ cs) after [] post sep l e = inr (record { over = cs; front = cc; back = cc })
cut (c ∷ cs) after (p ∷ ps) post sep l e =
    let same : c ≡ p = cc in
    elim (cut cs after ps post sep l.1 (cc)) [
      | inl s ↦ inl (record {
        left = s.left;
        front = ap (λ xs. p ∷ xs) s.front ∙ ap (λ x. x ∷ cs ++ s.left) (sym same);
        back = s.back;
        lacks = (λ q. l.0 (sym same ∙ q), s.lacks);
        lacks_left = s.lacks_left;
      })
      | inr s ↦ inr (record {
        over = s.over;
        front = ap (λ xs. c ∷ xs) s.front ∙ ap (λ x. x ∷ ps ++ sep ∷ s.over) same;
        back = s.back;
      })
    ]

-- A line was read, and some of the bytes behind it were dropped with the buffer.
pub record LineRead (s : Stream) (got : Outcome IoError (List ℕ) × Stream) (line post : List ℕ)
    : Type 0 where
  pub dropped : List ℕ
  pub rest : List ℕ
  pub result : got.0 ≡ done line
  pub behind : post ≡ dropped ++ rest
  pub left : delivered got.1 ≡ rest
  pub untouched : Untouched s got.1

Untouched-trans : (s t u : Stream) → Untouched s t → Untouched t u → Untouched s u
Untouched-trans s t u a b = record {
  kind = b.kind ∙ a.kind;
  sent = b.sent ∙ a.sent;
  fates = b.fates ∙ a.fates;
  deadline = b.deadline ∙ a.deadline;
  is_shut = b.is_shut ∙ a.is_shut;
  calm = λ c. b.calm (a.calm c);
  sooner = omega (arith, a.sooner, b.sooner);
}

round-Past :
    (fuel : ℕ) (line pre over : List ℕ) (s t : Stream) (c : ℕ) (cs : List ℕ)
    → read 8192 s ≡ (done (c ∷ cs), t)
    → c ∷ cs ≡ pre ++ 10 ∷ over
    → Lacks 10 pre
    → read_line_bytes (suc fuel) line s ≡ (done (line ++ pre ++ 10 ∷ []), t)
unfolding read_line_bytes line_end
round-Past fuel line pre over s t c cs r e l = rw r (
    ap (λ x. line_end (read_line_bytes fuel) line x t)
      (ap (λ xs. split_once 10 xs) e ∙ split_once-append 10 pre over l))

round-Short :
    (fuel : ℕ) (line : List ℕ) (s t : Stream) (c : ℕ) (cs : List ℕ)
    → read 8192 s ≡ (done (c ∷ cs), t)
    → Lacks 10 (c ∷ cs)
    → read_line_bytes (suc fuel) line s ≡ read_line_bytes fuel (line ++ c ∷ cs) t
unfolding read_line_bytes line_end
round-Short fuel line s t c cs r l =
    rw r (ap (λ x. line_end (read_line_bytes fuel) line x t) (split_once-Lacks 10 (c ∷ cs) l))

fewer :
    (h : ℕ) (tail rest all : List ℕ) (fuel : ℕ)
    → (h ∷ tail) ++ rest ≡ all
    → length all < suc fuel
    → length rest < fuel
fewer h tail rest all fuel e f =
    omega (arith, length-append (h ∷ tail) rest, ap (λ xs. length xs) e, f)

pub read_line_bytes_lem :
    (fuel : ℕ) (line pre post : List ℕ) (s : Stream)
    → s.deadline ≡ none
    → NoFail s.incoming
    → Lacks 10 pre
    → delivered s ≡ pre ++ 10 ∷ post
    → length (delivered s) < fuel
    → LineRead s (read_line_bytes fuel line s) (line ++ pre ++ 10 ∷ []) post
read_line_bytes_lem zero line pre post s idle calm l e f = absurd (omega arith)
read_line_bytes_lem (suc fuel) line pre post s idle calm l e f =
    elim (read_cases 8191 s idle calm) [
      | inl a ↦ absurd (no_end pre post (sym a.all ∙ e))
      | inr c ↦ elim (cut (c.head ∷ c.tail) (delivered c.after) pre post 10 l (c.all ∙ e)) [
        | inl h ↦
            let r =
              read_line_bytes_lem fuel (line ++ c.head ∷ c.tail) h.left post c.after
                (c.untouched.deadline ∙ idle) c.calm h.lacks_left h.back
                (fewer c.head c.tail _ _ fuel c.all f) in
            let whole : (line ++ c.head ∷ c.tail) ++ h.left ++ 10 ∷ [] ≡ line ++ pre ++ 10 ∷ [] =
              ap (λ xs. xs ++ 10 ∷ [])
                (append_assoc line (c.head ∷ c.tail) h.left
                  ∙ ap (λ xs. line ++ xs) (sym h.front)) in
            rw (round-Short fuel line s c.after c.head c.tail c.got h.lacks) (record {
              dropped = r.dropped;
              rest = r.rest;
              result = r.result ∙ ap done whole;
              behind = r.behind;
              left = r.left;
              untouched = Untouched-trans s c.after _ c.untouched r.untouched;
            })
        | inr h ↦
            let read_on = round-Past fuel line pre h.over s c.after c.head c.tail c.got h.front l in
            rw read_on (record {
              dropped = h.over;
              rest = delivered c.after;
              result = refl;
              behind = h.back;
              left = refl;
              untouched = c.untouched;
            })
      ]
    ]
  where
    no_end : (pre post : List ℕ) → [] ≡ pre ++ 10 ∷ post → ⊥
    no_end [] post e = cc
    no_end (p ∷ ps) post e = cc
