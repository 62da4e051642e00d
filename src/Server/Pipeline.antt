-- ===== src/Server/Pipeline.antt =====
-- Several requests that lie in the command buffer of src/server_tcp.c at once.
use podcache.Prelude.{
  ℕ, zero, suc, ◌≤◌, ◌<◌, ◌≡◌, refl, arith, Bytes, false, List, [], ◌∷◌, ◌++◌, not, if◌then◌else◌,
  drop, length, append_assoc, drop-append, Bool-cases, inl, inr,
}
use podcache.Resp.{granted, max_args}
use podcache.Resp.Encode.{bulks, request, AllShort}
use podcache.Resp.Whole.{request_length, length-request, command_of, parse-request}
use podcache.Cas.Files.{FileSystem}
use podcache.Pod.{PodCache, Pod, pure, ◌>>=◌}
use podcache.Server.{Outcome}
use podcache.Server.Handlers.{Request, dispatch_command}
use podcache.Server.Loop.{Pass, stop, join, dispatched, handle_parsed, process, and_then-same}

-- A command's name, and its arguments.
abbrev pub Call : Type 0
Call = Bytes × List Bytes

-- The requests one behind the other.
abbrev pub requests_of : List Call → Bytes
requests_of [] = []
requests_of ((s, ss) ∷ calls) = request (s ∷ ss) (requests_of calls)

-- Calls that the parser takes: at most 100 strings of at most 2 ^ 20 bytes each.
abbrev pub AllSmall : List Call → Type 0
AllSmall [] = Unit {0}
AllSmall ((s, ss) ∷ calls) = (length ss < max_args) × AllShort (s ∷ ss) × AllSmall calls

bulks-append : (ss : List Bytes) (t : Bytes) → bulks ss t ≡ bulks ss [] ++ t
bulks-append [] t = refl
bulks-append (s ∷ ss) t = rw (bulks-append ss t) (simp append_assoc refl)

request-append : (ss : List Bytes) (t : Bytes) → request ss t ≡ request ss [] ++ t
request-append ss t = rw (bulks-append ss t) (simp append_assoc refl)

drop-request : (ss : List Bytes) (t : Bytes) → drop (request_length ss) (request ss t) ≡ t
drop-request ss t =
    let same : request_length ss ≡ length (request ss []) = omega (arith, length-request ss []) in
    rw (same, request-append ss t) (drop-append (request ss []) t)

module _ {F : Type 0} (fs : FileSystem F) (requests : ℕ → Request) where
  -- What the calls should do: each in its turn, until one ends the connection.
  pub serve : ℕ → List Call → Pod F Pass
  serve n [] = pure stop
  serve n ((s, ss) ∷ calls) = do
    o ← dispatch_command fs (requests n) (command_of s ss)
    if not o.goes_on then pure (record { goes_on = false; sent = o.sent; processed = 0 }) else do
      p ← serve (suc n) calls
      pure (join fs (λ _. granted) requests o (request_length (s ∷ ss)) p)

  -- what follows a call, `next` being the rest of the loop and `rest` what it should do
  after_call :
      (input : Bytes) (consumed : ℕ) (next : Bytes → Pod F Pass) (rest : Pod F Pass) (o : Outcome)
      (cache : PodCache) (files : F)
      → next (drop consumed input) cache files ≡ rest cache files
      → dispatched fs (λ _. granted) requests input consumed next o cache files
        ≡ (if not o.goes_on
              then pure (record { goes_on = false; sent = o.sent; processed = 0 })
              else do p ← rest; pure (join fs (λ _. granted) requests o consumed p))
            cache files
  unfolding dispatched
  after_call input consumed next rest o cache files h = elim (Bool-cases (not o.goes_on)) [
    | inl e ↦ rw e refl
    | inr e ↦ rw (e, h) refl
  ]

  -- With memory for the parser, the inner loop over a buffer with whole requests dispatches each of
  -- them in turn, and sends the answers in their order, until a handler ends the connection.
  pub process-serve :
      (fuel n : ℕ) (calls : List Call)
      → AllSmall calls
      → length (requests_of calls) ≤ fuel
      → (cache : PodCache) (files : F)
      → process fs (λ _. granted) requests fuel n (requests_of calls) cache files
        ≡ serve n calls cache files
  unfolding process serve handle_parsed
  process-serve zero n [] small room cache files = refl
  process-serve (suc fuel) n [] small room cache files = refl
  process-serve zero n ((s, ss) ∷ calls) small room cache files = absurd (omega arith)
  process-serve (suc fuel) n ((s, ss) ∷ calls) (few, short, small) room cache files =
      let t = requests_of calls in
      let size = length-request (s ∷ ss) t in
      rw (parse-request s ss t few short) (
        and_then-same (dispatch_command fs (requests n) (command_of s ss) cache files) _ _
          (λ o cache' files'.
            after_call (request (s ∷ ss) t) (request_length (s ∷ ss))
              (process fs (λ _. granted) requests fuel (suc n)) (serve (suc n) calls) o cache'
              files'
              (rw (drop-request (s ∷ ss) t)
                (process-serve fuel (suc n) calls small (omega arith) cache' files'))))
