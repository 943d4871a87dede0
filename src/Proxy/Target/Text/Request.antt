-- ===== src/Proxy/Target/Text/Request.antt =====
-- proxy/listener.rs, `parse_http_target_from_stream`: the request line as a client sends it.
use crabby_proxy.Prelude.{
  contains, ℕ, ◌≡◌, refl, sym, ap, ◌∙◌, none, List, [], ◌∷◌, ◌++◌, append_assoc, append-nil, arith,
}
use crabby_proxy.Text.{codes}
use crabby_proxy.Text.Utf8.{from_utf8-ascii, IsAscii, IsAscii-append, all_ascii-IsAscii}
use crabby_proxy.Text.Split.{split_whitespace, words, add_word, is_whitespace}
use crabby_proxy.Text.Split.Pieces.{Lacks, Lacks-append, contains-Lacks}
use crabby_proxy.Text.Split.Words.{
  IsPrintable, words-IsPrintable, IsPrintable-IsAscii, IsPrintable-Lacks,
}
use crabby_proxy.Net.{Stream}
use crabby_proxy.Net.Io.{done, lift}
use crabby_proxy.Net.Common.{fuel_of}
use crabby_proxy.Net.Read.Delivery.{delivered, NoFail, Untouched}
use crabby_proxy.Net.Read.Steps.{delivered-lt-fuel_of, Delivers, Moves}
use crabby_proxy.Proxy.Target.Text.{
  read_line, read_line_bytes, parse_request_line, parse_http_target_from_stream,
}
use crabby_proxy.Proxy.Target.Text.Line.{read_line_bytes_lem}

abbrev version : List ℕ
version = codes " HTTP/1.1" ++ 13 ∷ []

-- The request line up to its line feed.
abbrev pub request_line : List ℕ → List ℕ → List ℕ
request_line method url = method ++ 32 ∷ (url ++ version)

-- The words of a request line.
abbrev pub request_words : List ℕ → List ℕ → List (List ℕ)
request_words method url = method ∷ url ∷ codes "HTTP/1.1" ∷ []

module _ (m : ℕ) (ms : List ℕ) (u : ℕ) (us : List ℕ) (pm : IsPrintable (m ∷ ms))
    (pu : IsPrintable (u ∷ us)) where
  method : List ℕ
  method = m ∷ ms

  url : List ℕ
  url = u ∷ us

  split-request_line :
      split_whitespace (request_line method url ++ 10 ∷ []) ≡ request_words method url
  unfolding split_whitespace words add_word is_whitespace method url
  split-request_line =
      ap (λ xs. words [] xs) whole
      ∙ words-IsPrintable [] method _ pm
      ∙ ap (λ ws. method ∷ ws) (words-IsPrintable [] url (codes "HTTP/1.1" ++ 13 ∷ 10 ∷ []) pu)
    where
      whole : request_line method url ++ 10 ∷ [] ≡ method ++ 32 ∷ (url ++ (version ++ 10 ∷ []))
      whole =
          append_assoc method (32 ∷ (url ++ version)) (10 ∷ [])
          ∙ ap (λ xs. method ++ 32 ∷ xs) (append_assoc url version (10 ∷ []))

  request_line-IsAscii : IsAscii (request_line method url ++ 10 ∷ [])
  unfolding method url
  request_line-IsAscii =
      IsAscii-append (request_line method url) (10 ∷ [])
        (IsAscii-append method _ (IsPrintable-IsAscii method pm) (
          omega arith,
          IsAscii-append url version (IsPrintable-IsAscii url pu) (all_ascii-IsAscii version refl),
        ))
        (omega arith, tt)

  request_line-Lacks : Lacks 10 (request_line method url)
  unfolding method url contains
  request_line-Lacks = Lacks-append 10 method _ (IsPrintable-Lacks 10 method (omega arith) pm) (
    (λ e. omega (arith, e)),
    Lacks-append 10 url version (IsPrintable-Lacks 10 url (omega arith) pu)
        (contains-Lacks 10 version refl),
  )

  line-target :
      (s t : Stream)
      → read_line_bytes (fuel_of s) [] s ≡ (done (request_line method url ++ 10 ∷ []), t)
      → parse_http_target_from_stream s ≡ lift (parse_request_line (request_words method url)) t
  unfolding parse_http_target_from_stream read_line
  line-target s t e =
      rw e (rw (from_utf8-ascii _ request_line-IsAscii) (rw split-request_line refl))

-- A target was read, and some of the bytes behind its request were dropped with the buffer.
pub record TargetRead (s t : Stream) (post : List ℕ) : Type 0 where
  pub dropped : List ℕ
  pub rest : List ℕ
  pub behind : post ≡ dropped ++ rest
  pub left : delivered t ≡ rest
  pub untouched : Untouched s t

pub TargetRead-Moves :
    (s t : Stream) (all post : List ℕ)
    → Delivers s all
    → (r : TargetRead s t post) → Moves s t r.rest []
TargetRead-Moves s t all post d r = record {
  delivers = record {
    idle = r.untouched.deadline ∙ d.idle;
    writable = r.untouched.fates ∙ d.writable;
    all = r.left;
  };
  wrote = r.untouched.sent ∙ sym (append-nil s.sent);
  kind = r.untouched.kind;
  calm = r.untouched.calm;
  sooner = r.untouched.sooner;
}

-- The words of the request line decide the target.
pub record RequestRead (s : Stream) (parts : List (List ℕ)) (post : List ℕ) : Type 0 where
  pub after : Stream
  pub got : parse_http_target_from_stream s ≡ lift (parse_request_line parts) after
  pub read : TargetRead s after post

pub parse_http_target_from_stream-RequestRead :
    (s : Stream) (m : ℕ) (ms : List ℕ) (u : ℕ) (us post : List ℕ)
    → s.deadline ≡ none
    → NoFail s.incoming
    → IsPrintable (m ∷ ms)
    → IsPrintable (u ∷ us)
    → delivered s ≡ request_line (m ∷ ms) (u ∷ us) ++ 10 ∷ post
    → RequestRead s (request_words (m ∷ ms) (u ∷ us)) post
unfolding method url
parse_http_target_from_stream-RequestRead s m ms u us post idle calm pm pu e =
    let r =
      read_line_bytes_lem (fuel_of s) [] (request_line (m ∷ ms) (u ∷ us)) post s idle calm
        (request_line-Lacks m ms u us pm pu) e (delivered-lt-fuel_of s) in
    let t : Stream = (read_line_bytes (fuel_of s) [] s).1 in
    record {
      after = t;
      got = line-target m ms u us pm pu s t (ap (λ o. (o, t)) r.result);
      read = record {
        dropped = r.dropped;
        rest = r.rest;
        behind = r.behind;
        left = r.left;
        untouched = r.untouched;
      };
    }
