-- ===== src/Resp/Memory.antt =====
-- The memory that src/resp_parser.c allocates and frees: the strings, and the arrays that point at them.
pub mod Frees
pub mod Owns
pub mod Agrees
use podcache.Prelude.{
  ℕ, zero, suc, ◌+◌, ◌||◌, Bytes, Bool, true, false, Option, none, some, List, [], ◌∷◌, ◌++◌, not,
  ltb, leb, ◌==◌, if◌then◌else◌, length, get_or,
}
use podcache.Prelude.Int.{ℤ, pos, negsuc}
use podcache.Resp.{
  Buffer, Parsed, ok, incomplete, error, Alloc, max_args, max_str_len, min_buffer_size, has_bytes,
  peek, skip, read_integer,
}

-- The blocks that are allocated, and the address of the next one.
pub record Heap : Type 0 where
  pub live : List ℕ
  pub next : ℕ

-- `none` is a fault: a block is freed that is not allocated.
abbrev pub Mem : Type 0 → Type 0
Mem A = Heap → Option (A × Heap)

abbrev pub pure : {A : Type 0} → A → Mem A
pure a h = some (a, h)

module _ {A B : Type 0} where
  abbrev pub and_then : Option (A × Heap) → (A → Mem B) → Option (B × Heap)
  and_then none k = none
  and_then (some (a, h)) k = k a h

  infixl 5 ◌>>=◌
  abbrev pub ◌>>=◌ : Mem A → (A → Mem B) → Mem B
  m >>= k = λ h. and_then (m h) k

abbrev pub is_live : ℕ → List ℕ → Bool
is_live p [] = false
is_live p (q ∷ qs) = q == p || is_live p qs

abbrev pub without : ℕ → List ℕ → List ℕ
without p [] = []
without p (q ∷ qs) = let rest = without p qs in if q == p then qs else q ∷ rest

-- `malloc` and `calloc`
unfoldable pub malloc : Bool → Mem (Option ℕ)
malloc succeeds h =
    if succeeds
    then some (some h.next, record { live = h.next ∷ h.live; next = suc h.next })
    else some (none, h)

unfoldable pub free : Option ℕ → Mem (Unit {0})
free none h = some (tt, h)
free (some p) h = if is_live p h.live then some (tt, record h { live = without p h.live }) else none

-- the loop of `free_string_array`
unfoldable pub free_strings : List (Option ℕ) → Mem (Unit {0})
free_strings [] = pure tt
free_strings (s ∷ strings) = do _ ← free s; free_strings strings

unfoldable pub free_string_array : Option ℕ → List (Option ℕ) → Mem (Unit {0})
free_string_array none strings = pure tt
free_string_array (some array) strings = do _ ← free_strings strings; free (some array)

-- `resp_command_t` as pointers: the array of the arguments, and what it points at
pub record CommandBlocks : Type 0 where
  pub command : Option ℕ
  pub args : Option ℕ
  pub arg_strings : List (Option ℕ)

unfoldable pub resp_command_free : CommandBlocks → Mem (Unit {0})
resp_command_free cmd = do _ ← free cmd.command; free_string_array cmd.args cmd.arg_strings

-- behind `strndup_safe`
unfoldable pub copied : ℕ → Buffer → Option ℕ → Mem (Parsed (Option ℕ))
copied str_len buf none = pure error
copied str_len buf (some p) =
    if not (get_or buf.rest str_len 0 == 13) || not (get_or buf.rest (str_len + 1) 0 == 10)
    then (do _ ← free (some p); pure error)
    else pure (ok (some p) (skip buf (str_len + 2)))

unfoldable pub bulk_block : Bool → Parsed ℤ → Mem (Parsed (Option ℕ))
bulk_block string_ok incomplete = pure incomplete
bulk_block string_ok error = pure error
bulk_block string_ok (ok (negsuc n) buf) = pure (if n == 0 then ok none buf else error)
bulk_block string_ok (ok (pos str_len) buf) =
    if ltb max_str_len str_len
    then pure error
    else if not (has_bytes buf (str_len + 2))
    then pure incomplete
    else (do p ← malloc string_ok; copied str_len buf p)

unfoldable pub bulk_string_block : Bool → Buffer → Mem (Parsed (Option ℕ))
bulk_string_block string_ok buf =
    if not (peek buf == b'$') then pure error else bulk_block string_ok (read_integer (skip buf 1))

-- what becomes of the next element: after a failure the ones that were read are freed
unfoldable pub element_read :
    ℕ
    → List (Option ℕ)
    → (Option ℕ → Buffer → Mem (Parsed (List (Option ℕ))))
    → Parsed (Option ℕ)
    → Mem (Parsed (List (Option ℕ)))
element_read elements read next (ok s buf) = next s buf
element_read elements read next incomplete = do
  _ ← free_string_array (some elements) read
  pure incomplete
element_read elements read next error = do _ ← free_string_array (some elements) read; pure error

unfoldable pub element_blocks :
    (ℕ → Bool) → ℕ → List (Option ℕ) → ℕ → Buffer → Mem (Parsed (List (Option ℕ)))
element_blocks string_ok elements read zero buf = pure (ok read buf)
element_blocks string_ok elements read (suc n) buf = do
  s ← bulk_string_block (string_ok n) buf
  element_read elements read (λ p buf'. element_blocks string_ok elements (read ++ p ∷ []) n buf') s

-- behind the `malloc` of `out->args`
unfoldable pub args_block :
    ℕ → Option ℕ → List (Option ℕ) → Buffer → Option ℕ → Mem (Parsed CommandBlocks)
args_block elements e es buf none = do _ ← free_string_array (some elements) (e ∷ es); pure error
args_block elements e es buf (some args) = do
  _ ← free (some elements)
  pure (ok (record { command = e; args = some args; arg_strings = es }) buf)

-- the command, if all elements are read
unfoldable pub command_blocks : Bool → ℕ → Parsed (List (Option ℕ)) → Mem (Parsed CommandBlocks)
command_blocks args_ok elements incomplete = pure incomplete
command_blocks args_ok elements error = pure error
command_blocks args_ok elements (ok [] buf) = do _ ← free (some elements); pure error
command_blocks args_ok elements (ok (e ∷ []) buf) = do
  _ ← free (some elements)
  pure (ok (record { command = e; args = none; arg_strings = [] }) buf)
command_blocks args_ok elements (ok (e ∷ s ∷ es) buf) = do
  args ← malloc args_ok
  args_block elements e (s ∷ es) buf args

-- behind the `calloc` of `elements`
unfoldable pub array_block : Alloc → ℕ → Buffer → Option ℕ → Mem (Parsed CommandBlocks)
array_block alloc n buf none = pure error
array_block alloc n buf (some elements) = do
  es ← element_blocks alloc.string_ok elements [] n buf
  command_blocks alloc.args_ok elements es

unfoldable pub count_blocks : Alloc → Parsed ℤ → Mem (Parsed CommandBlocks)
count_blocks alloc incomplete = pure incomplete
count_blocks alloc error = pure error
count_blocks alloc (ok (negsuc n) buf) = pure error
count_blocks alloc (ok (pos n) buf) =
    if n == 0 || ltb max_args n
    then pure error
    else (do elements ← malloc alloc.elements_ok; array_block alloc n buf elements)

-- `resp_parse`
unfoldable pub parse_blocks : Alloc → Bytes → Mem (Parsed CommandBlocks)
parse_blocks alloc input =
    let buf : Buffer = record { rest = input; pos = 0 } in
    if ltb (length input) min_buffer_size
    then pure incomplete
    else if not (peek buf == b'*')
    then pure error
    else count_blocks alloc (read_integer (skip buf 1))
