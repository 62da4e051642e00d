-- ===== src/Server/Session.antt =====
-- `client_handler_thread` of src/server_tcp.c over all the chunks that `recv` gives, until the
-- connection is closed, the server stops or a handler ends it.
use podcache.Prelude.{
  ℕ, suc, ◌+◌, ◌≤◌, ◌<◌, ◌≡◌, refl, ◌∙◌, Bytes, List, [], ◌∷◌, ◌++◌, not, if◌then◌else◌, length,
  Bool-cases, inl, inr, Option, none, some, arith,
}
use podcache.Resp as Resp
use podcache.Resp.{incomplete, max_args, max_str_len, parse}
use podcache.Resp.Encode.{AllShort}
use podcache.Resp.Waits.{begun_request, parse-begun}
use podcache.Cas.Files.{FileSystem}
use podcache.Pod.{PodCache, Pod, pure, and_then, ◌>>=◌}
use podcache.Server.{CommandBuffer, buffer_init, max_command_size}
use podcache.Server.Handlers.{Request}
use podcache.Server.Loop.{receive, and_then-same}
use podcache.Server.Chunks.{receive_waits}

module _ {F : Type 0} (fs : FileSystem F) where
  -- The outer loop: the bytes sent. The environment is that of the chunk's number.
  unfoldable pub session :
      (ℕ → ℕ → Resp.Alloc) → (ℕ → ℕ → Request) → ℕ → CommandBuffer → List Bytes → Pod F Bytes
  session allocs requests m buf [] = pure []
  session allocs requests m buf (chunk ∷ chunks) = do
    r ← receive fs (allocs m) (requests m) buf chunk
    if not r.0
        then pure r.1
        else do sent ← session allocs requests (suc m) r.2 chunks; pure (r.1 ++ sent)

  unfoldable pub client_handler_thread :
      (ℕ → ℕ → Resp.Alloc) → (ℕ → ℕ → Request) → List Bytes → Pod F Bytes
  client_handler_thread allocs requests chunks =
      session allocs requests 0 (buffer_init max_command_size) chunks

  and_then-pure : {A : Type 0} (o : Option (A × PodCache × F)) → and_then o pure ≡ o
  and_then-pure none = refl
  and_then-pure (some (a, cache, files)) = refl

  module _ (requests : ℕ → Request) where
    -- The chunk's number plays no part where the environment does not.
    session_any :
        (m k : ℕ) (buf : CommandBuffer) (chunks : List Bytes) (cache : PodCache) (files : F)
        → session (λ _ _. Resp.granted) (λ _. requests) m buf chunks cache files
          ≡ session (λ _ _. Resp.granted) (λ _. requests) k buf chunks cache files
    unfolding session
    session_any m k buf [] cache files = refl
    session_any m k buf (chunk ∷ chunks) cache files =
        and_then-same (receive fs (λ _. Resp.granted) requests buf chunk cache files) _ _
          (λ r cache' files'. elim (Bool-cases (not r.0)) [
            | inl e ↦ rw e refl
            | inr e ↦ rw (e, session_any (suc m) (suc k) r.2 chunks cache' files') refl
          ])

    -- An incomplete request and the next chunk, one behind the other or at once.
    client_handler_thread_waits :
        (early rest : Bytes) (chunks : List Bytes) (cache : PodCache) (files : F)
        → 0 < length early
        → parse Resp.granted early ≡ incomplete
        → length early + length rest ≤ max_command_size
        → client_handler_thread
            (λ _ _. Resp.granted)
            (λ _. requests)
            (early ∷ rest ∷ chunks)
            cache
            files
          ≡ client_handler_thread
              (λ _ _. Resp.granted)
              (λ _. requests)
              ((early ++ rest) ∷ chunks)
              cache
              files
    unfolding client_handler_thread session
    client_handler_thread_waits early rest chunks cache files some_byte waits room =
        let (kept, same) =
          receive_waits fs requests max_command_size early rest some_byte waits room cache cache
            files files in
        rw (kept, same)
          (and_then-pure _
            ∙ and_then-same
                (receive fs (λ _. Resp.granted) requests (buffer_init max_command_size)
                  (early ++ rest) cache files)
                _ _
                (λ r cache' files'. elim (Bool-cases (not r.0)) [
                  | inl e ↦ rw e refl
                  | inr e ↦ rw (e, session_any 2 1 r.2 chunks cache' files') refl
                ]))

    -- With memory for the parser: where `recv` cuts the first request of a connection inside the bytes of
    -- one of its elements makes no difference. If both pieces fit the buffer, what the thread sends over
    -- the whole connection, and what it does to the cache and the files, is what it does if both pieces
    -- come in one chunk.
    pub client_handler_thread-begun :
        (n : ℕ) (ss : List Bytes) (len : ℕ) (part rest : Bytes) (chunks : List Bytes)
        (cache : PodCache) (files : F)
        → n ≤ max_args
        → length ss < n
        → AllShort ss
        → len ≤ max_str_len
        → length part < len + 2
        → let early = begun_request n ss len part in
          length early + length rest ≤ max_command_size
          → client_handler_thread
              (λ _ _. Resp.granted)
              (λ _. requests)
              (early ∷ rest ∷ chunks)
              cache
              files
            ≡ client_handler_thread
                (λ _ _. Resp.granted)
                (λ _. requests)
                ((early ++ rest) ∷ chunks)
                cache
                files
    client_handler_thread-begun n ss len part rest chunks cache files few less short small cut
          room =
        client_handler_thread_waits (begun_request n ss len part) rest chunks cache files
          (omega arith) (parse-begun n ss len part few less short small cut) room
