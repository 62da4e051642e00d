-- ===== src/Server/Loop.antt =====
-- The loop of `client_handler_thread` of src/server_tcp.c over the chunks that `recv` gives. It ends
-- with the last one: the connection was closed, or the server stopped.
use podcache.Prelude.{
  ℕ, zero, suc, ◌+◌, ◌≤◌, ◌<◌, ◌≡◌, refl, arith, Bytes, codes, Bool, true, false, [], ◌∷◌, ◌++◌,
  not, if◌then◌else◌, drop, length, length-drop, Option, none, some, Bool-cases, inl, inr,
}
use podcache.Resp.{Command, Parsed, ok, incomplete, error, Alloc, parse}
use podcache.Resp.Partial.{parse_bounds}
use podcache.Cas.Files.{FileSystem}
use podcache.Pod.{PodCache, Pod, pure, and_then, ◌>>=◌}
use podcache.Server.{
  CommandBuffer, Outcome, buffer_init, buffer_append, buffer_consume, send_error_response,
}
use podcache.Server.Handlers.{Request, dispatch_command}

-- What the inner loop does: whether the connection goes on, what is sent, and `processed`.
pub record Pass : Type 0 where
  pub goes_on : Bool
  pub sent : Bytes
  pub processed : ℕ

abbrev pub stop : Pass
stop = record { goes_on = true; sent = []; processed = 0 }

-- Equal continuations of one run.
pub and_then-same :
    {F A B : Type 0} (m : Option (A × PodCache × F)) (k k' : A → Pod F B)
    → ((a : A) (cache : PodCache) (files : F) → k a cache files ≡ k' a cache files)
    → and_then m k ≡ and_then m k'
and_then-same none k k' h = refl
and_then-same (some (a, cache, files)) k k' h = h a cache files

-- The environment of the `n`-th command.
module _ {F : Type 0} (fs : FileSystem F) (allocs : ℕ → Alloc) (requests : ℕ → Request) where
  abbrev pub join : Outcome → ℕ → Pass → Pass
  join o consumed p = record {
    goes_on = p.goes_on;
    sent = o.sent ++ p.sent;
    processed = consumed + p.processed;
  }

  -- `next` is the rest of the loop
  unfoldable pub dispatched : Bytes → ℕ → (Bytes → Pod F Pass) → Outcome → Pod F Pass
  dispatched input consumed next o =
      if not o.goes_on
      then pure (record { goes_on = false; sent = o.sent; processed = 0 })
      else do p ← next (drop consumed input); pure (join o consumed p)

  unfoldable pub handle_parsed : ℕ → Bytes → (Bytes → Pod F Pass) → Parsed Command → Pod F Pass
  handle_parsed n input next incomplete = pure stop
  handle_parsed n input next error = pure (record {
    goes_on = true;
    sent = (send_error_response (requests n).send_ok (codes "protocol error")).sent;
    processed = length input;
  })
  handle_parsed n input next (ok cmd buf) = do
    o ← dispatch_command fs (requests n) cmd
    dispatched input buf.pos next o

  -- the loop `while (processed < cmd_buf.used)` over the bytes behind `processed`
  unfoldable pub process : ℕ → ℕ → Bytes → Pod F Pass
  process zero n input = pure stop
  process (suc fuel) n [] = pure stop
  process (suc fuel) n (c ∷ input) =
      handle_parsed n (c ∷ input) (process fuel (suc n)) (parse (allocs n) (c ∷ input))

  -- the state behind a chunk, if the connection goes on
  unfoldable pub finish : CommandBuffer → Pass → Bool × Bytes × CommandBuffer
  finish buf p = (p.goes_on, p.sent, buffer_consume buf p.processed)

  unfoldable pub receive : CommandBuffer → Bytes → Pod F (Bool × Bytes × CommandBuffer)
  receive buf chunk =
      let appended = buffer_append buf chunk in
      if not appended.0
      then pure (
        true,
        (send_error_response (requests 0).send_ok (codes "command too long")).sent,
        buffer_init buf.capacity,
      )
      else do p ← process (length appended.1.buffer) 0 appended.1.buffer; pure (finish appended.1 p)

  dispatched-same :
      (input : Bytes) (consumed : ℕ) (f g : Bytes → Pod F Pass) (o : Outcome) (cache : PodCache)
      (files : F)
      → f (drop consumed input) cache files ≡ g (drop consumed input) cache files
      → dispatched input consumed f o cache files ≡ dispatched input consumed g o cache files
  unfolding dispatched
  dispatched-same input consumed f g o cache files h = elim (Bool-cases (not o.goes_on)) [
    | inl e ↦ rw e refl
    | inr e ↦ rw (e, h) refl
  ]

  same_next :
      (n : ℕ) (input : Bytes) (f g : Bytes → Pod F Pass) (r : Parsed Command)
      → parse (allocs n) input ≡ r
      → ((rest : Bytes) (cache : PodCache) (files : F)
          → length rest < length input
          → f rest cache files ≡ g rest cache files)
      → (cache : PodCache) (files : F)
      → handle_parsed n input f r cache files ≡ handle_parsed n input g r cache files
  unfolding handle_parsed dispatched
  same_next n input f g incomplete e same cache files = refl
  same_next n input f g error e same cache files = refl
  same_next n input f g (ok cmd buf) e same cache files =
      let (some_byte, all) = parse_bounds (allocs n) input e in
      let shorter : length (drop buf.pos input) < length input =
        omega (arith, length-drop {0} buf.pos input) in
      and_then-same (dispatch_command fs (requests n) cmd cache files) (dispatched input buf.pos f)
        (dispatched input buf.pos g)
        (λ o cache' files'.
          dispatched-same input buf.pos f g o cache' files' (same _ cache' files' shorter))

  -- The fuel of the inner loop is enough: any two amounts from the number of bytes on give the
  -- same result, whatever the commands do.
  pub process_fuel :
      (fuel more n : ℕ) (input : Bytes)
      → length input ≤ fuel
      → length input ≤ more
      → (cache : PodCache) (files : F)
      → process fuel n input cache files ≡ process more n input cache files
  unfolding process
  process_fuel zero zero n input a b cache files = refl
  process_fuel zero (suc more) n [] a b cache files = refl
  process_fuel zero (suc more) n (c ∷ input) a b cache files = absurd (omega arith)
  process_fuel (suc fuel) zero n [] a b cache files = refl
  process_fuel (suc fuel) zero n (c ∷ input) a b cache files = absurd (omega arith)
  process_fuel (suc fuel) (suc more) n [] a b cache files = refl
  process_fuel (suc fuel) (suc more) n (c ∷ input) a b cache files =
      same_next n (c ∷ input) (process fuel (suc n)) (process more (suc n))
        (parse (allocs n) (c ∷ input)) refl
        (λ rest cache' files' h.
          process_fuel fuel more (suc n) rest (omega arith) (omega arith) cache' files')
        cache files
