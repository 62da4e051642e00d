-- ===== src/Resp/Memory/Owns.antt =====
-- `resp_parse` of src/resp_parser.c frees what it does not hand over.
use podcache.Prelude.{
  ℕ, zero, suc, ◌+◌, ◌<◌, ◌≡◌, refl, sym, ap, subst, Bytes, Bool, true, false, ◌||◌, Option, none,
  some, List, [], ◌∷◌, ◌++◌, not, ltb, ◌==◌, ne→==, ==_refl, length, get_or, arith, Bool-cases, inl,
  inr,
}
use podcache.Prelude.Int.{ℤ, pos, negsuc}
use podcache.Resp.{
  Buffer, Parsed, ok, incomplete, error, Alloc, max_args, max_str_len, min_buffer_size, has_bytes,
  peek, skip, read_integer, parse,
}
use podcache.Resp.Memory.Agrees.{Agrees, Same, parse_blocks-Agrees}
use podcache.Resp.Memory.{
  Heap, Mem, and_then, is_live, without, malloc, free, free_strings, free_string_array,
  CommandBlocks, resp_command_free, copied, bulk_block, bulk_string_block, element_read,
  element_blocks, args_block, command_blocks, array_block, count_blocks, parse_blocks,
}
use podcache.Resp.Memory.Frees.{
  heap, Freed, Within, frame, sooner, left_live, Freed-snoc, Freed-none, Within-snoc, Within-none,
  array_freed, Freed-live, done, blocks_of,
}

-- A run that reads one string on the heap of `l` and `n`: a failure leaves nothing behind.
abbrev OneString : List ℕ → ℕ → Option (Parsed (Option ℕ) × Heap) → Type 0
OneString l n none = ⊥
OneString l n (some (ok none buf, h)) = h ≡ heap l n
OneString l n (some (ok (some p) buf, h)) = (p ≡ n) × (h ≡ heap (n ∷ l) (suc n))
OneString l n (some (incomplete, h)) = h.live ≡ l
OneString l n (some (error, h)) = h.live ≡ l

copied-OneString :
    (str_len : ℕ) (buf : Buffer) (l : List ℕ) (n : ℕ)
    → OneString l n (copied str_len buf (some n) (heap (n ∷ l) (suc n)))
unfolding copied free
copied-OneString str_len buf l n =
    elim (Bool-cases
      (not (get_or buf.rest str_len 0 == 13) || not (get_or buf.rest (str_len + 1) 0 == 10))) [
        | inl e ↦ rw (e, ==_refl) refl
        | inr e ↦ rw e (refl, refl)
      ]

bulk_block-OneString :
    (b : Bool) (r : Parsed ℤ) (l : List ℕ) (n : ℕ) → OneString l n (bulk_block b r (heap l n))
unfolding bulk_block malloc copied
bulk_block-OneString b incomplete l n = refl
bulk_block-OneString b error l n = refl
bulk_block-OneString b (ok (negsuc k) buf) l n = elim (Bool-cases (k == 0)) [
  | inl e ↦ rw e refl
  | inr e ↦ rw e refl
]
bulk_block-OneString b (ok (pos len) buf) l n = elim (Bool-cases (ltb max_str_len len)) [
  | inl e ↦ rw e refl
  | inr e ↦ elim (Bool-cases (not (has_bytes buf (len + 2)))) [
    | inl f ↦ rw (e, f) refl
    | inr f ↦ elim (Bool-cases b) [
      | inl g ↦ rw (e, f, g) (copied-OneString len buf l n)
      | inr g ↦ rw (e, f, g) refl
    ]
  ]
]

bulk_string_block-OneString :
    (b : Bool) (buf : Buffer) (l : List ℕ) (n : ℕ)
    → OneString l n (bulk_string_block b buf (heap l n))
unfolding bulk_string_block
bulk_string_block-OneString b buf l n = elim (Bool-cases (not (peek buf == b'$'))) [
  | inl e ↦ rw e refl
  | inr e ↦ rw e (bulk_block-OneString b (read_integer (skip buf 1)) l n)
]

-- The array `e` and the strings that were read stand on `m`, or nothing does.
abbrev Strings : ℕ → List ℕ → Option (Parsed (List (Option ℕ)) × Heap) → Type 0
Strings e m none = ⊥
Strings e m (some (ok ps buf, h)) = Freed ps h.live (e ∷ m) × Within e h.next ps × (e < h.next)
Strings e m (some (incomplete, h)) = h.live ≡ m
Strings e m (some (error, h)) = h.live ≡ m

module _ (b : ℕ → Bool) (e : ℕ) (m : List ℕ) where
  -- one string more, or the end
  element_read-Strings :
      (ps : List (Option ℕ)) (l : List ℕ) (n : ℕ)
      (next : Option ℕ → Buffer → Mem (Parsed (List (Option ℕ))))
      → Freed ps l (e ∷ m)
      → Within e n ps
      → e < n
      → ((buf : Buffer) → Strings e m (next none buf (heap l n)))
      → ((buf : Buffer) → Strings e m (next (some n) buf (heap (n ∷ l) (suc n))))
      → (o : Option (Parsed (Option ℕ) × Heap)) → OneString l n o
      → Strings e m (and_then o (element_read e ps next))
  unfolding element_read
  element_read-Strings ps l n next freed w above nothing string none one = absurd one
  element_read-Strings ps l n next freed w above nothing string (some (ok none buf, h)) one =
      rw one (nothing buf)
  element_read-Strings ps l n next freed w above nothing string (some (ok (some p) buf, h))
        (at, one) =
      rw (at, one) (string buf)
  element_read-Strings ps l n next freed w above nothing string (some (incomplete, h)) one =
      rw (array_freed e h.next ps h.live m (subst (λ d. Freed ps d (e ∷ m)) (sym one) freed)) refl
  element_read-Strings ps l n next freed w above nothing string (some (error, h)) one =
      rw (array_freed e h.next ps h.live m (subst (λ d. Freed ps d (e ∷ m)) (sym one) freed)) refl

  element_blocks-Strings :
      (k : ℕ) (ps : List (Option ℕ)) (buf : Buffer) (l : List ℕ) (n : ℕ)
      → Freed ps l (e ∷ m)
      → Within e n ps
      → e < n
      → Strings e m (element_blocks b e ps k buf (heap l n))
  unfolding element_blocks
  element_blocks-Strings zero ps buf l n freed w above = (freed, w, above)
  element_blocks-Strings (suc k) ps buf l n freed w above =
      element_read-Strings ps l n _ freed w above
        (λ buf'.
          element_blocks-Strings k (ps ++ none ∷ []) buf' l n (Freed-none ps l (e ∷ m) freed)
            (Within-none e n ps w) above)
        (λ buf'.
          element_blocks-Strings k (ps ++ some n ∷ []) buf' (n ∷ l) (suc n)
            (string_added n ps l freed w above)
            (Within-snoc e n (suc n) n ps (omega arith) above (omega arith) w) (omega arith))
        (bulk_string_block (b k) buf (heap l n)) (bulk_string_block-OneString (b k) buf l n)
    where
      string_added :
          (n : ℕ) (ps : List (Option ℕ)) (l : List ℕ)
          → Freed ps l (e ∷ m)
          → Within e n ps
          → e < n
          → Freed (ps ++ some n ∷ []) (n ∷ l) (e ∷ m)
      string_added n ps l freed w above =
          let both = frame e n ps l (e ∷ m) w freed in
          let top : is_live n (n ∷ e ∷ m) ≡ true = rw ==_refl refl in
          let rest : without n (n ∷ e ∷ m) ≡ e ∷ m = rw ==_refl refl in
          subst (Freed (ps ++ some n ∷ []) (n ∷ l)) rest
            (Freed-snoc n ps (n ∷ l) (n ∷ e ∷ m) both top)

command_freed :
    (q n : ℕ) (x : Option ℕ) (es : List (Option ℕ)) (l m : List ℕ)
    → Freed (x ∷ es) l (q ∷ m)
    → resp_command_free (record { command = x; args = some q; arg_strings = es }) (heap l n)
      ≡ done (heap m n)
unfolding resp_command_free free free_strings
command_freed q n none es l m h = array_freed q n es l m h
command_freed q n (some p) es l m h =
    let (there, rest) = Freed-live p es l (q ∷ m) h in
    rw there (array_freed q n es (without p l) m rest)

-- a command without arguments
single_freed :
    (n : ℕ) (x : Option ℕ) (l m : List ℕ)
    → Freed (x ∷ []) l m
    → resp_command_free (record { command = x; args = none; arg_strings = [] }) (heap l n)
      ≡ done (heap m n)
unfolding resp_command_free free_string_array free_strings
single_freed n x l m h = h n

-- `resp_command_free` of the command that is handed over leaves the blocks `m`; after a failure these
-- are all there is.
abbrev Command : List ℕ → Option (Parsed CommandBlocks × Heap) → Type 0
Command m none = ⊥
Command m (some (ok cmd buf, h)) = resp_command_free cmd h ≡ done (heap m h.next)
Command m (some (incomplete, h)) = h.live ≡ m
Command m (some (error, h)) = h.live ≡ m

module _ (e : ℕ) (m : List ℕ) where
  -- without the array
  array_out :
      (ps : List (Option ℕ)) (l : List ℕ) (n : ℕ)
      → Within e n ps
      → Freed ps l (e ∷ m)
      → Freed ps (without e l) m
  array_out ps l n w freed =
      let rest : without e (e ∷ m) ≡ m = rw ==_refl refl in
      subst (Freed ps (without e l)) rest (sooner e n ps l (e ∷ m) w freed)

  array_live : (ps : List (Option ℕ)) (l : List ℕ) → Freed ps l (e ∷ m) → is_live e l ≡ true
  array_live ps l freed = left_live e ps l (e ∷ m) freed (rw ==_refl refl)

  args_block-Command :
      (args_ok : Bool) (x s : Option ℕ) (es : List (Option ℕ)) (buf : Buffer) (l : List ℕ) (n : ℕ)
      → Freed (x ∷ s ∷ es) l (e ∷ m)
      → Within e n (x ∷ s ∷ es)
      → e < n
      → Command m (command_blocks args_ok e (ok (x ∷ s ∷ es) buf) (heap l n))
  unfolding command_blocks malloc args_block free
  args_block-Command false x s es buf l n freed w above =
      rw (array_freed e n (x ∷ s ∷ es) l m freed) refl
  args_block-Command true x s es buf l n freed w above =
      let other = ne→== n e (λ same. omega (arith, same)) in
      let there = array_live (x ∷ s ∷ es) l freed in
      let held = frame e n (x ∷ s ∷ es) (without e l) m w (array_out (x ∷ s ∷ es) l n w freed) in
      rw (other, there) (command_freed n (suc n) x (s ∷ es) (n ∷ without e l) m held)

  command_blocks-Command :
      (args_ok : Bool) (o : Option (Parsed (List (Option ℕ)) × Heap))
      → Strings e m o
      → Command m (and_then o (command_blocks args_ok e))
  unfolding command_blocks free free_strings
  command_blocks-Command args_ok none h = absurd h
  command_blocks-Command args_ok (some (incomplete, h)) left = left
  command_blocks-Command args_ok (some (error, h)) left = left
  command_blocks-Command args_ok (some (ok [] buf, h)) (freed, w, above) =
      let there = array_live [] h.live freed in
      rw there (ap blocks_of (array_out [] h.live h.next w freed 0))
  command_blocks-Command args_ok (some (ok (x ∷ []) buf, h)) (freed, w, above) =
      let there = array_live (x ∷ []) h.live freed in
      rw there
        (single_freed h.next x (without e h.live) m (array_out (x ∷ []) h.live h.next w freed))
  command_blocks-Command args_ok (some (ok (x ∷ s ∷ es) buf, h)) (freed, w, above) =
      args_block-Command args_ok x s es buf h.live h.next freed w above

count_blocks-Command :
    (alloc : Alloc) (r : Parsed ℤ) (m : List ℕ) (n : ℕ)
    → Command m (count_blocks alloc r (heap m n))
unfolding count_blocks malloc array_block free_strings
count_blocks-Command alloc incomplete m n = refl
count_blocks-Command alloc error m n = refl
count_blocks-Command alloc (ok (negsuc k) buf) m n = refl
count_blocks-Command alloc (ok (pos k) buf) m n = elim (Bool-cases (k == 0 || ltb max_args k)) [
  | inl e ↦ rw e refl
  | inr e ↦ elim (Bool-cases alloc.elements_ok) [
    | inr f ↦ rw (e, f) refl
    | inl f ↦
        rw (e, f)
          (command_blocks-Command n m alloc.args_ok
            (element_blocks alloc.string_ok n [] k buf (heap (n ∷ m) (suc n)))
            (element_blocks-Strings alloc.string_ok n m k [] buf (n ∷ m) (suc n) (λ j. refl) tt
              (omega arith)))
  ]
]

parse_blocks-Command :
    (alloc : Alloc) (input : Bytes) (m : List ℕ) (n : ℕ)
    → Command m (parse_blocks alloc input (heap m n))
unfolding parse_blocks
parse_blocks-Command alloc input m n =
    let buf : Buffer = record { rest = input; pos = 0 } in
    elim (Bool-cases (ltb (length input) min_buffer_size)) [
      | inl e ↦ rw e refl
      | inr e ↦ elim (Bool-cases (not (peek buf == b'*'))) [
        | inl f ↦ rw (e, f) refl
        | inr f ↦ rw (e, f) (count_blocks-Command alloc (read_integer (skip buf 1)) m n)
      ]
    ]

-- What a parse leaves: the command's blocks on top of `m`, which `resp_command_free` frees, or `m` alone.
abbrev pub Settled : List ℕ → Parsed CommandBlocks → Heap → Type 0
Settled m (ok cmd buf) h = resp_command_free cmd h ≡ some (tt, record { live = m; next = h.next })
Settled m incomplete h = h.live ≡ m
Settled m error h = h.live ≡ m

settled :
    {B : Type 0} (m : List ℕ) (o : Option (Parsed CommandBlocks × Heap)) (p : Parsed B)
    → Command m o
    → Agrees o p
    → (r : Parsed CommandBlocks) × (h : Heap) × (o ≡ some (r, h)) × Settled m r h × Same r p
settled m none p left same = absurd left
settled m (some (ok cmd buf, h)) p left same = (ok cmd buf, h, refl, left, same)
settled m (some (incomplete, h)) p left same = (incomplete, h, refl, left, same)
settled m (some (error, h)) p left same = (error, h, refl, left, same)

-- For every input and whichever allocations succeed, each string's on its own, `resp_parse` frees no block that is not allocated,
-- and the model that follows its blocks gives the verdict of the one that follows its strings: a command
-- with the same buffer behind it, an incomplete input or an error. If it parses a command, `resp_command_free` of it frees no block that is not allocated
-- either and leaves exactly the blocks that were allocated before the parse; if the input is incomplete
-- or malformed, these are left already.
pub resp_command_free-parse_blocks :
    (alloc : Alloc) (input : Bytes) (before : List ℕ) (next : ℕ)
    → (r : Parsed CommandBlocks) × (h : Heap) × (parse_blocks alloc input
          (record { live = before; next = next })
        ≡ some (r, h))
      × Settled before r h
      × Same r (parse alloc input)
resp_command_free-parse_blocks alloc input before next =
    settled before (parse_blocks alloc input (heap before next)) (parse alloc input)
      (parse_blocks-Command alloc input before next)
      (parse_blocks-Agrees alloc input (heap before next))
