-- ===== src/Server/Names.antt =====
-- The names of commands in src/resp_parser.c and the handlers of src/server_tcp.c.
use podcache.Prelude.{
  ◌≡◌, ◌≤◌, refl, ap, arith, Bytes, codes, Option, some, List, [], ◌∷◌, suc, map, length, le→ltb,
  str_eq,
}
use podcache.Resp.{c_string, decode_command, table_lookup, to_upper, unknow, command_table}
use podcache.Cas.Files.{FileSystem}
use podcache.Pod.{PodCache}
use podcache.Server.{send_error_response}
use podcache.Server.Handlers.{Request, dispatch_command, handler}

length-map-to_upper : (s : Bytes) → length (map to_upper s) ≡ length s
length-map-to_upper [] = refl
length-map-to_upper (c ∷ s) = ap suc (length-map-to_upper s)

unlisted : table_lookup (codes "UNLINK") command_table ≡ unknow
unfolding table_lookup str_eq
unlisted = refl

decode_unlink : (s : Bytes) → map to_upper s ≡ codes "UNLINK" → decode_command (some s) ≡ unknow
unfolding decode_command
decode_unlink s h =
    let size : length s ≤ 32 = omega (arith, length-map-to_upper s, ap length h) in
    rw (le→ltb 32 (length s) size, h) unlisted

-- The command UNLINK, in any mixture of cases and with any arguments, is answered as unknown, and
-- changes neither the cache nor the files, although the table of the handlers has an entry for it.
pub dispatch_command-unlink :
    {F : Type 0} (fs : FileSystem F) (r : Request) (name : Bytes) (args : List (Option Bytes))
    (cache : PodCache) (files : F)
    → map to_upper (c_string name) ≡ codes "UNLINK"
    → dispatch_command fs r (record { command = some name; args = args }) cache files
      ≡ some (send_error_response r.send_ok (codes "unknown command"), cache, files)
unfolding dispatch_command handler
dispatch_command-unlink fs r name args cache files h =
    ap (λ t. handler fs r t args cache files) (decode_unlink (c_string name) h)
