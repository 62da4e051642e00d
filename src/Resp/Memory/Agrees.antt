-- ===== src/Resp/Memory/Agrees.antt =====
-- The model of `resp_parse` of src/resp_parser.c that follows its blocks gives the verdict of the one
-- that follows its strings.
use podcache.Prelude.{
  ℕ, zero, suc, ◌+◌, ◌≡◌, refl, subst, Bytes, Bool, ◌||◌, Option, none, some, List, [], ◌∷◌, ◌++◌,
  not, ltb, ◌==◌, length, length-append, get_or, arith, Bool-cases, inl, inr,
}
use podcache.Prelude.Int.{ℤ, pos, negsuc}
use podcache.Resp.{
  Buffer, Parsed, ◌>>=◌, ok, incomplete, error, Alloc, Command, max_args, max_str_len,
  min_buffer_size, has_bytes, peek, skip, read_integer, bulk_body, read_bulk_string, read_elements,
  assemble, parse_elements, parse,
}
use podcache.Resp.Memory.{
  Heap, Mem, and_then, malloc, free, free_string_array, CommandBlocks, copied, bulk_block,
  bulk_string_block, element_read, element_blocks, args_block, command_blocks, array_block,
  count_blocks, parse_blocks,
}

-- The same verdict, with the same buffer behind a command.
abbrev pub Same : {A B : Type 0} → Parsed A → Parsed B → Type 0
Same (ok a buf) (ok b buf') = buf ≡ buf'
Same (ok a buf) incomplete = ⊥
Same (ok a buf) error = ⊥
Same incomplete (ok b buf') = ⊥
Same incomplete incomplete = Unit
Same incomplete error = ⊥
Same error (ok b buf') = ⊥
Same error incomplete = ⊥
Same error error = Unit

-- The run agrees, unless it faults.
abbrev pub Agrees : {A B : Type 0} → Option (Parsed A × Heap) → Parsed B → Type 0
Agrees none p = Unit
Agrees (some (r, h)) p = Same r p

-- and it has that many strings
abbrev Counts : ℕ → Option (Parsed (List (Option ℕ)) × Heap) → Parsed (List (Option Bytes)) → Type 0
Counts c none p = Unit
Counts c (some (ok ps buf, h)) (ok es buf') = (length ps ≡ c + length es) × (buf ≡ buf')
Counts c (some (ok ps buf, h)) incomplete = ⊥
Counts c (some (ok ps buf, h)) error = ⊥
Counts c (some (incomplete, h)) p = Same {A = Unit {0}} incomplete p
Counts c (some (error, h)) p = Same {A = Unit {0}} error p

-- A failure, once what was allocated is freed.
failed :
    {A B : Type 0} (m : Option (Unit {0} × Heap)) (r : Parsed A) (p : Parsed B)
    → Same r p
    → Agrees (and_then m (λ _ h. some (r, h))) p
failed none r p same = tt
failed (some (u, h)) r p same = same

bulk_block-Agrees :
    (b : Bool) (r : Parsed ℤ) (h : Heap) → Agrees (bulk_block b r h) (r >>= bulk_body b)
unfolding bulk_block bulk_body malloc copied free
bulk_block-Agrees b incomplete h = tt
bulk_block-Agrees b error h = tt
bulk_block-Agrees b (ok (negsuc k) buf) h = elim (Bool-cases (k == 0)) [
  | inl e ↦ rw e refl
  | inr e ↦ rw e tt
]
bulk_block-Agrees b (ok (pos len) buf) h = elim (Bool-cases (ltb max_str_len len)) [
  | inl e ↦ rw e tt
  | inr e ↦ elim (Bool-cases (not (has_bytes buf (len + 2)))) [
    | inl f ↦ rw (e, f) tt
    | inr f ↦ elim (Bool-cases b) [
      | inr g ↦ rw (e, f, g) tt
      | inl g ↦
          elim (Bool-cases
            (not (get_or buf.rest len 0 == 13) || not (get_or buf.rest (len + 1) 0 == 10))) [
              | inl k ↦
                  rw (e, f, g, k)
                    (failed {A = Option ℕ} {B = Option Bytes}
                      (free (some h.next) (record { live = h.next ∷ h.live; next = suc h.next }))
                      error error tt)
              | inr k ↦ rw (e, f, g, k) refl
            ]
    ]
  ]
]

bulk_string_block-Agrees :
    (b : Bool) (buf : Buffer) (h : Heap)
    → Agrees (bulk_string_block b buf h) (read_bulk_string b buf)
unfolding bulk_string_block read_bulk_string
bulk_string_block-Agrees b buf h = elim (Bool-cases (not (peek buf == b'$'))) [
  | inl e ↦ rw e tt
  | inr e ↦ rw e (bulk_block-Agrees b (read_integer (skip buf 1)) h)
]

failed_elements :
    (c : ℕ) (m : Option (Unit {0} × Heap)) (p : Parsed (List (Option Bytes)))
    → Same {A = Unit {0}} incomplete p
    → Counts c (and_then m (λ _ h. some (incomplete, h))) p
failed_elements c none p same = tt
failed_elements c (some (u, h)) p same = same

refused_elements :
    (c : ℕ) (m : Option (Unit {0} × Heap)) (p : Parsed (List (Option Bytes)))
    → Same {A = Unit {0}} error p
    → Counts c (and_then m (λ _ h. some (error, h))) p
refused_elements c none p same = tt
refused_elements c (some (u, h)) p same = same

-- one element in front
one_more :
    (c : ℕ) (y : Option Bytes) (o : Option (Parsed (List (Option ℕ)) × Heap))
    (p : Parsed (List (Option Bytes)))
    → Counts (suc c) o p
    → Counts c o (p >>= λ es buf. ok (y ∷ es) buf)
one_more c y none p h = tt
one_more c y (some (ok ps buf, k)) (ok es buf') (size, same) = (omega arith, same)
one_more c y (some (ok ps buf, k)) incomplete h = h
one_more c y (some (ok ps buf, k)) error h = h
one_more c y (some (incomplete, k)) (ok es buf') h = h
one_more c y (some (incomplete, k)) incomplete h = h
one_more c y (some (incomplete, k)) error h = h
one_more c y (some (error, k)) (ok es buf') h = h
one_more c y (some (error, k)) incomplete h = h
one_more c y (some (error, k)) error h = h

element_read-Counts :
    (c e : ℕ) (ps : List (Option ℕ)) (next : Option ℕ → Buffer → Mem (Parsed (List (Option ℕ))))
    (others : Buffer → Parsed (List (Option Bytes)))
    → ((x : Option ℕ) (buf : Buffer) (h : Heap) → Counts (suc c) (next x buf h) (others buf))
    → (o : Option (Parsed (Option ℕ) × Heap)) (p : Parsed (Option Bytes)) → Agrees o p
    → Counts c
        (and_then o (element_read e ps next))
        (p >>= λ y buf. others buf >>= λ es buf'. ok (y ∷ es) buf')
unfolding element_read
element_read-Counts c e ps next others each none p same = tt
element_read-Counts c e ps next others each (some (ok x buf, h)) (ok y buf') same =
    one_more c y (next x buf h) (others buf')
      (subst (λ b. Counts (suc c) (next x buf h) (others b)) same (each x buf h))
element_read-Counts c e ps next others each (some (ok x buf, h)) incomplete same = absurd same
element_read-Counts c e ps next others each (some (ok x buf, h)) error same = absurd same
element_read-Counts c e ps next others each (some (incomplete, h)) (ok y buf') same = absurd same
element_read-Counts c e ps next others each (some (incomplete, h)) incomplete same =
    failed_elements c (free_string_array (some e) ps h) incomplete tt
element_read-Counts c e ps next others each (some (incomplete, h)) error same = absurd same
element_read-Counts c e ps next others each (some (error, h)) (ok y buf') same = absurd same
element_read-Counts c e ps next others each (some (error, h)) incomplete same = absurd same
element_read-Counts c e ps next others each (some (error, h)) error same =
    refused_elements c (free_string_array (some e) ps h) error tt

element_blocks-Counts :
    (b : ℕ → Bool) (e : ℕ) (ps : List (Option ℕ)) (n : ℕ) (buf : Buffer) (h : Heap)
    → Counts (length ps) (element_blocks b e ps n buf h) (read_elements b n buf)
unfolding element_blocks read_elements
element_blocks-Counts b e ps zero buf h = (omega arith, refl)
element_blocks-Counts b e ps (suc n) buf h =
    element_read-Counts (length ps) e ps _ (read_elements b n)
      (λ x buf' h'.
        let longer : length (ps ++ x ∷ []) ≡ suc (length ps) =
          omega (arith, length-append {0} ps (x ∷ [])) in
        subst (λ c. Counts c (element_blocks b e (ps ++ x ∷ []) n buf' h') (read_elements b n buf'))
          longer (element_blocks-Counts b e (ps ++ x ∷ []) n buf' h'))
      (bulk_string_block (b n) buf h) (read_bulk_string (b n) buf)
      (bulk_string_block-Agrees (b n) buf h)

command_blocks-Agrees :
    (alloc : Alloc) (e : ℕ) (o : Option (Parsed (List (Option ℕ)) × Heap))
    (p : Parsed (List (Option Bytes)))
    → Counts 0 o p
    → Agrees (and_then o (command_blocks alloc.args_ok e)) (p >>= assemble alloc)
unfolding command_blocks assemble malloc args_block
command_blocks-Agrees alloc e none p h = tt
command_blocks-Agrees alloc e (some (incomplete, k)) (ok es buf') h = absurd h
command_blocks-Agrees alloc e (some (incomplete, k)) incomplete h = tt
command_blocks-Agrees alloc e (some (incomplete, k)) error h = absurd h
command_blocks-Agrees alloc e (some (error, k)) (ok es buf') h = absurd h
command_blocks-Agrees alloc e (some (error, k)) incomplete h = absurd h
command_blocks-Agrees alloc e (some (error, k)) error h = tt
command_blocks-Agrees alloc e (some (ok ps buf, k)) incomplete h = absurd h
command_blocks-Agrees alloc e (some (ok ps buf, k)) error h = absurd h
command_blocks-Agrees alloc e (some (ok [] buf, k)) (ok [] buf') (size, same) =
    failed {A = CommandBlocks} {B = Command} (free (some e) k) error error tt
command_blocks-Agrees alloc e (some (ok [] buf, k)) (ok (y ∷ es) buf') (size, same) =
    absurd (omega arith)
command_blocks-Agrees alloc e (some (ok (x ∷ ps) buf, k)) (ok [] buf') (size, same) =
    absurd (omega arith)
command_blocks-Agrees alloc e (some (ok (x ∷ []) buf, k)) (ok (y ∷ []) buf') (size, same) =
    failed {B = Command} (free (some e) k) _ _ same
command_blocks-Agrees alloc e (some (ok (x ∷ []) buf, k)) (ok (y ∷ z ∷ es) buf') (size, same) =
    absurd (omega arith)
command_blocks-Agrees alloc e (some (ok (x ∷ s ∷ ps) buf, k)) (ok (y ∷ []) buf') (size, same) =
    absurd (omega arith)
command_blocks-Agrees alloc e (some (ok (x ∷ s ∷ ps) buf, k)) (ok (y ∷ z ∷ es) buf') (size, same) =
    elim (Bool-cases alloc.args_ok) [
      | inl g ↦ rw g (failed {B = Command} (free (some e) _) _ _ same)
      | inr g ↦ rw g (
          failed {A = CommandBlocks} {B = Command} (free_string_array (some e) (x ∷ s ∷ ps) k) error
            error tt)
    ]

count_blocks-Agrees :
    (alloc : Alloc) (r : Parsed ℤ) (h : Heap)
    → Agrees (count_blocks alloc r h) (r >>= parse_elements alloc)
unfolding count_blocks parse_elements malloc array_block command_blocks assemble
count_blocks-Agrees alloc incomplete h = tt
count_blocks-Agrees alloc error h = tt
count_blocks-Agrees alloc (ok (negsuc n) buf) h = tt
count_blocks-Agrees alloc (ok (pos n) buf) h = elim (Bool-cases (n == 0 || ltb max_args n)) [
  | inl e ↦ rw e tt
  | inr e ↦ elim (Bool-cases alloc.elements_ok) [
    | inr g ↦ rw (e, g) tt
    | inl g ↦
        rw (e, g)
          (command_blocks-Agrees alloc h.next _ (read_elements alloc.string_ok n buf)
            (element_blocks-Counts alloc.string_ok h.next [] n buf _))
  ]
]

pub parse_blocks-Agrees :
    (alloc : Alloc) (input : Bytes) (h : Heap)
    → Agrees (parse_blocks alloc input h) (parse alloc input)
unfolding parse_blocks parse
parse_blocks-Agrees alloc input h = elim (Bool-cases (ltb (length input) min_buffer_size)) [
  | inl e ↦ rw e tt
  | inr e ↦ elim (Bool-cases (not (peek (record { rest = input; pos = 0 }) == b'*'))) [
    | inl f ↦ rw (e, f) tt
    | inr f ↦
        rw (e, f)
          (count_blocks-Agrees alloc (read_integer (skip (record { rest = input; pos = 0 }) 1)) h)
  ]
]
