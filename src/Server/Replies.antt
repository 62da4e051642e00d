-- ===== src/Server/Replies.antt =====
-- The replies of src/server_tcp.c, as a client reads them.
use podcache.Prelude.{
  ◌≤◌, ◌<◌, ◌≡◌, refl, ap, ◌∙◌, Bytes, codes, true, false, some, [], ◌∷◌, ◌++◌, length,
  length-append, append_assoc, arith, leb, Bool-cases, inl, inr, ◌⊎◌, leb→le,
}
use podcache.Prelude.Decimal.{decimal}
use podcache.Resp.{ok, read_bulk_string}
use podcache.Resp.Encode.{bulk, bulk_length, read_bulk_string-bulk}
use podcache.Server.{Outcome, buffer_size, crlf, send_formatted_response, send_bulk_string_response}

length-bulk : (str : Bytes) → length (bulk str []) ≡ bulk_length str
length-bulk str = omega (
  arith,
  length-append {0} (decimal (length str)) (13 ∷ 10 ∷ (str ++ 13 ∷ 10 ∷ [])),
  length-append {0} str (13 ∷ 10 ∷ []),
)

-- what is sent if it fits the reply's buffer
send_formatted_response-cases :
    (text : Bytes)
    → ((buffer_size ≤ length text)
        × (send_formatted_response true text ≡ record { goes_on = false; sent = [] }))
      ⊎ ((length text < buffer_size)
          × (send_formatted_response true text ≡ record { goes_on = true; sent = text }))
unfolding send_formatted_response
send_formatted_response-cases text = elim (Bool-cases (leb buffer_size (length text))) [
  | inl e ↦ inl (leb→le buffer_size (length text) e, rw e refl)
  | inr e ↦ inr (ground arith, rw e refl)
]

sent_as_bulk :
    (str : Bytes)
    → send_bulk_string_response true (some str) ≡ send_formatted_response true (bulk str [])
unfolding send_bulk_string_response
sent_as_bulk str =
    let text : (codes "$" ++ decimal (length str) ++ crlf ++ str ++ crlf) ≡ bulk str [] =
      simp append_assoc refl in
    ap (send_formatted_response true) text

-- A value that is sent as a bulk string, while `send` succeeds: if its encoding stays below 4096 bytes,
-- the connection goes on and the client, reading as the server's own parser does, gets exactly the value
-- and nothing behind it. If not, nothing is sent and the connection ends.
pub read_bulk_string-send_bulk_string_response :
    (str : Bytes)
    → let reply = send_bulk_string_response true (some str) in
      ((buffer_size ≤ bulk_length str) × (reply ≡ record { goes_on = false; sent = [] }))
      ⊎ ((bulk_length str < buffer_size)
          × (reply.goes_on ≡ true)
          × (read_bulk_string true (record { rest = reply.sent; pos = 0 })
              ≡ ok (some str) (record { rest = []; pos = bulk_length str })))
read_bulk_string-send_bulk_string_response str =
    let size = length-bulk str in
    elim (send_formatted_response-cases (bulk str [])) [
      | inl (long, closed) ↦ inl (omega (arith, size), sent_as_bulk str ∙ closed)
      | inr (short, sent) ↦ inr (
        omega (arith, size),
        ap (λ (o : Outcome). o.goes_on) (sent_as_bulk str ∙ sent),
        ap (λ (o : Outcome). read_bulk_string true (record { rest = o.sent; pos = 0 }))
              (sent_as_bulk str ∙ sent)
            ∙ read_bulk_string-bulk str [] 0 (omega (arith, size))
            ∙ ap (λ n. ok (some str) (record { rest = []; pos = n })) (omega arith),
      )
    ]
