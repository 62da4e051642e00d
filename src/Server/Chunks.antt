-- ===== src/Server/Chunks.antt =====
-- A request that src/server_tcp.c receives in two pieces.
use podcache.Prelude.{
  ℕ, zero, suc, ◌+◌, ◌≤◌, ◌<◌, ◌≡◌, refl, Bytes, true, some, [], ◌∷◌, ◌++◌, le→ltb, lt→leb, length,
  length-append, arith,
}
use podcache.Resp.{incomplete, granted, parse}
use podcache.Cas.Files.{FileSystem}
use podcache.Pod.{PodCache}
use podcache.Server.{CommandBuffer, buffer_init, buffer_append, buffer_consume}
use podcache.Server.Handlers.{Request}
use podcache.Server.Loop.{stop, process, handle_parsed, finish, receive}

append_fits :
    (buf : CommandBuffer) (chunk : Bytes)
    → length buf.buffer + length chunk ≤ buf.capacity
    → buffer_append buf chunk ≡ (true, record buf { buffer = buf.buffer ++ chunk })
unfolding buffer_append
append_fits buf chunk room = rw (le→ltb buf.capacity (length buf.buffer + length chunk) room) refl

nothing_consumed :
    (early : Bytes) (capacity : ℕ)
    → 0 < length early
    → buffer_consume (record { buffer = early; capacity = capacity }) 0
      ≡ record { buffer = early; capacity = capacity }
unfolding buffer_consume
nothing_consumed early capacity some_byte = rw (lt→leb (length early) 0 some_byte) refl

module _ {F : Type 0} (fs : FileSystem F) (requests : ℕ → Request) where
  -- The loop over a buffer that holds an incomplete request alone does nothing.
  process_waits :
      (fuel : ℕ) (early : Bytes)
      → parse granted early ≡ incomplete
      → (cache : PodCache) (files : F)
      → process fs (λ _. granted) requests fuel 0 early cache files ≡ some (stop, cache, files)
  unfolding process handle_parsed
  process_waits zero early waits cache files = refl
  process_waits (suc fuel) [] waits cache files = refl
  process_waits (suc fuel) (c ∷ early) waits cache files = rw waits refl

  -- With memory for the parser, a first chunk that is an incomplete request is kept in the buffer, if it
  -- fits: nothing is sent, and the cache and the files stay. The next chunk, if there is room for
  -- both, is then treated exactly as if both had come at once.
  pub receive_waits :
      (capacity : ℕ) (early rest : Bytes)
      → 0 < length early
      → parse granted early ≡ incomplete
      → length early + length rest ≤ capacity
      → (cache later : PodCache) (files loaded : F)
      → (receive fs (λ _. granted) requests (buffer_init capacity) early cache files
          ≡ some ((true, [], record { buffer = early; capacity = capacity }), cache, files))
        × (receive fs
              (λ _. granted)
              requests
              (record { buffer = early; capacity = capacity })
              rest
              later
              loaded
            ≡ receive fs
                (λ _. granted)
                requests
                (buffer_init capacity)
                (early ++ rest)
                later
                loaded)
  unfolding receive finish buffer_init
  receive_waits capacity early rest some_byte waits room cache later files loaded =
      let all = length-append {0} early rest in
      (
        rw
            (
              append_fits (record { buffer = []; capacity = capacity }) early (omega arith),
              process_waits (length early) early waits cache files,
              nothing_consumed early capacity some_byte,
            )
            refl,
        rw
            (
              append_fits (record { buffer = early; capacity = capacity }) rest room,
              append_fits (record { buffer = []; capacity = capacity }) (early ++ rest)
                  (omega (arith, all)),
            )
            refl,
      )
