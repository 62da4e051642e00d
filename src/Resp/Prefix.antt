-- ===== src/Resp/Prefix.antt =====
-- Every place where a request of src/resp_parser.c can stop.
use podcache.Prelude.{
  ℕ, suc, ◌+◌, ◌≤◌, ◌<◌, ◌≡◌, ◌≢◌, ◌⊎◌, inl, inr, refl, sym, ap, ◌∙◌, subst, Bytes, true, none,
  List, [], ◌∷◌, ◌++◌, le→ltb, le→leb, ne→==, length, length-append, append-nil, arith, Bool-cases,
  ltb,
}
use podcache.Prelude.Decimal.{decimal, print_lem, AllDigits}
use podcache.Resp.{
  incomplete, error, max_args, max_str_len, granted, find_crlf, read_integer, read_bulk_string,
  read_elements, always, parse_elements, parse,
}
use podcache.Resp.Encode.{
  bulk, bulk_length, bulks, request, AllShort, read_integer-decimal, read_bulk_string-bulk,
}
use podcache.Resp.Partial.{parse_cut}
use podcache.Resp.Waits.{read_bulk_string-begun}

-- One of two ways to cut a text in two stops within its first part.
prefix_cases :
    (xs ys early late : Bytes)
    → xs ++ ys ≡ early ++ late
    → ((zs : Bytes) × (xs ≡ early ++ zs) × (zs ≢ []))
      ⊎ ((zs : Bytes) × (early ≡ xs ++ zs) × (ys ≡ zs ++ late))
prefix_cases [] ys early late h = inr (early, refl, h)
prefix_cases (x ∷ xs) ys [] late h = inl (x ∷ xs, refl, λ e. cc)
prefix_cases (x ∷ xs) ys (c ∷ early) late h =
    let heads : x ≡ c = cc in
    let tails : xs ++ ys ≡ early ++ late = cc in
    elim (prefix_cases xs ys early late tails) [
      | inl (zs, e, some_left) ↦ inl (zs, ap (λ (a : ℕ). a ∷ xs) heads ∙ ap (◌∷◌ c) e, some_left)
      | inr (zs, e, f) ↦ inr (zs, ap (λ (a : ℕ). a ∷ early) (sym heads) ∙ ap (◌∷◌ x) e, f)
    ]

-- digits, with the start of a CRLF behind them, have no CRLF
find_crlf-none : (s : Bytes) → AllDigits s → find_crlf s ≡ none
unfolding find_crlf
find_crlf-none [] h = refl
find_crlf-none (c ∷ []) h = refl
find_crlf-none (c ∷ d ∷ s) (hc, h) = ground (arith, find_crlf-none (d ∷ s) h)

find_crlf_cr : (s : Bytes) → AllDigits s → find_crlf (s ++ 13 ∷ []) ≡ none
unfolding find_crlf
find_crlf_cr [] h = refl
find_crlf_cr (c ∷ []) h = ground arith
find_crlf_cr (c ∷ d ∷ s) (hc, h) = ground (arith, find_crlf_cr (d ∷ s) h)

AllDigits-front : (s t : Bytes) → AllDigits (s ++ t) → AllDigits s
AllDigits-front [] t h = tt
AllDigits-front (c ∷ s) t (hc, h) = (hc, AllDigits-front s t h)

append-empty : (s t : Bytes) → [] ≡ s ++ t → t ≡ []
append-empty [] t h = sym h
append-empty (c ∷ s) t h = cc

-- A number that stops before the end of its CRLF is incomplete.
find_crlf_cut :
    (s early zs : Bytes)
    → AllDigits s
    → s ++ 13 ∷ 10 ∷ [] ≡ early ++ zs
    → zs ≢ []
    → find_crlf early ≡ none
find_crlf_cut s early zs digits h some_left = elim (prefix_cases s (13 ∷ 10 ∷ []) early zs h) [
  | inl (ts, e, _) ↦ find_crlf-none early (AllDigits-front early ts (subst AllDigits e digits))
  | inr ([], e, f) ↦ rw (e, append-nil) (find_crlf-none s digits)
  | inr (c ∷ [], e, f) ↦ let at : c ≡ 13 = cc in rw (e, at) (find_crlf_cr s digits)
  | inr (c ∷ d ∷ ts, e, f) ↦
      let rest : [] ≡ ts ++ zs = cc in absurd (some_left (append-empty ts zs rest))
]

crlf_assoc : (s t : Bytes) → (s ++ 13 ∷ 10 ∷ []) ++ t ≡ s ++ 13 ∷ 10 ∷ t
crlf_assoc [] t = refl
crlf_assoc (c ∷ s) t = ap (◌∷◌ c) (crlf_assoc s t)

-- A number, its CRLF and what follows, cut in two: the cut is before the end of the CRLF, and the
-- number is incomplete, or it is behind.
read_integer_cut :
    (n p : ℕ) (t early late : Bytes)
    → decimal n ++ 13 ∷ 10 ∷ t ≡ early ++ late
    → (read_integer (record { rest = early; pos = p }) ≡ incomplete)
      ⊎ ((zs : Bytes) × (early ≡ decimal n ++ 13 ∷ 10 ∷ zs) × (t ≡ zs ++ late))
unfolding read_integer
read_integer_cut n p t early late h =
    let (digits, _, _) = print_lem (suc n) n (omega arith) in
    elim (prefix_cases (decimal n ++ 13 ∷ 10 ∷ []) t early late (crlf_assoc (decimal n) t ∙ h)) [
      | inl (zs, e, some_left) ↦
          inl (rw (find_crlf_cut (decimal n) early zs digits e some_left) refl)
      | inr (zs, e, f) ↦ inr (zs, e ∙ crlf_assoc (decimal n) zs, f)
    ]

some_length : (s : Bytes) → s ≢ [] → 0 < length s
some_length [] h = absurd (h refl)
some_length (c ∷ s) h = omega arith

bulk_waits :
    (c : ℕ) (early : Bytes) (p : ℕ)
    → c ≡ b'$'
    → read_integer (record { rest = early; pos = p + 1 }) ≡ incomplete
    → read_bulk_string true (record { rest = c ∷ early; pos = p }) ≡ incomplete
unfolding read_bulk_string
bulk_waits c early p dollar waits = rw (
  dollar,
  le→leb 1 (suc (length early)) (omega arith),
  le→ltb (suc (length early)) 1 (omega arith),
  waits,
)

-- A bulk string and what follows, cut in two: the cut is in front, and reading is refused, or inside, and
-- it is incomplete, or behind.
read_bulk_string_cut :
    (s t early late : Bytes) (p : ℕ)
    → length s ≤ max_str_len
    → bulk s t ≡ early ++ late
    → (early ≡ [])
      ⊎ ((read_bulk_string true (record { rest = early; pos = p }) ≡ incomplete)
          ⊎ ((zs : Bytes) × (early ≡ bulk s zs) × (t ≡ zs ++ late)))
read_bulk_string_cut s t [] late p short h = inl refl
read_bulk_string_cut s t (c ∷ early) late p short h =
    let dollar : c ≡ b'$' = cc in
    let tails : decimal (length s) ++ 13 ∷ 10 ∷ (s ++ 13 ∷ 10 ∷ t) ≡ early ++ late = cc in
    elim (read_integer_cut (length s) (p + 1) (s ++ 13 ∷ 10 ∷ t) early late tails) [
      | inl waits ↦ inr (inl (bulk_waits c early p dollar waits))
      | inr (zs, e, f) ↦ elim (prefix_cases (s ++ 13 ∷ 10 ∷ []) t zs late (crlf_assoc s t ∙ f)) [
        | inl (ws, g, some_left) ↦
            let less : length zs < length s + 2 = omega (
              arith,
              ap length g,
              length-append {0} s (13 ∷ 10 ∷ []),
              length-append {0} zs ws,
              some_length ws some_left,
            ) in
            inr (
              inl (
                subst (λ r. read_bulk_string true (record { rest = r; pos = p }) ≡ incomplete)
                  (sym (ap (λ (a : ℕ). a ∷ early) dollar ∙ ap (◌∷◌ b'$') e))
                  (read_bulk_string-begun (length s) p zs short less)))
        | inr (ws, g, k) ↦ inr (
            inr (
              ws,
              ap (λ (a : ℕ). a ∷ early) dollar
                  ∙ ap (◌∷◌ b'$')
                      (e ∙ ap (λ w. decimal (length s) ++ 13 ∷ 10 ∷ w) (g ∙ crlf_assoc s ws)),
              k,
            ))
      ]
    ]

-- Elements cut in two: reading stops inside one of them, or the cut is behind the first `ts`.
read_elements_prefix :
    (ss : List Bytes) (early late : Bytes) (p : ℕ)
    → AllShort ss
    → bulks ss [] ≡ early ++ late
    → late ≢ []
    → (read_elements always (length ss) (record { rest = early; pos = p }) ≡ incomplete)
      ⊎ ((ts us : List Bytes) × (ss ≡ ts ++ us) × (early ≡ bulks ts []))
unfolding read_elements
read_elements_prefix [] early late p short h some_left =
    absurd (some_left (append-empty early late h))
read_elements_prefix (s ∷ ss) early late p (hs, short) h some_left =
    elim (read_bulk_string_cut s (bulks ss []) early late p hs h) [
      | inl e ↦ inr ([], s ∷ ss, refl, e)
      | inr (inl waits) ↦ inl (rw waits refl)
      | inr (inr (zs, e, f)) ↦
          elim (read_elements_prefix ss zs late (p + bulk_length s) short f some_left) [
            | inl waits ↦ inl (rw (e, read_bulk_string-bulk s zs p hs, waits) refl)
            | inr (ts, us, g, k) ↦ inr (s ∷ ts, us, ap (◌∷◌ s) g, e ∙ ap (bulk s) k)
          ]
    ]

-- the header of a request and its first elements
abbrev pub begins : ℕ → List Bytes → Bytes
begins n ts = b'*' ∷ (decimal n ++ 13 ∷ 10 ∷ bulks ts [])

parse_waits :
    (c : ℕ) (early : Bytes)
    → c ≡ b'*'
    → read_integer (record { rest = early; pos = 1 }) ≡ incomplete
    → parse granted (c ∷ early) ≡ incomplete
unfolding parse
parse_waits c early star waits = elim (Bool-cases (ltb (suc (length early)) 4)) [
  | inl e ↦ rw e refl
  | inr e ↦
      rw
        (
          e,
          star,
          le→leb 1 (suc (length early)) (omega arith),
          le→ltb (suc (length early)) 1 (omega arith),
          waits,
        )
        refl
]

parse_elements_waits :
    (n : ℕ) (zs : Bytes)
    → 0 < n
    → n ≤ max_args
    → read_elements always n (record { rest = zs; pos = 1 + (length (decimal n) + 2) }) ≡ incomplete
    → parse granted (b'*' ∷ (decimal n ++ 13 ∷ 10 ∷ zs)) ≡ incomplete
unfolding parse parse_elements
parse_elements_waits n zs some_element few waits =
    let behind = decimal n ++ 13 ∷ 10 ∷ zs in
    let room = length-append {0} (decimal n) (13 ∷ 10 ∷ zs) in
    rw (
      le→ltb (suc (length behind)) 4 (omega (arith, (print_lem (suc n) n (omega arith)).2)),
      le→leb 1 (suc (length behind)) (omega arith),
      le→ltb (suc (length behind)) 1 (omega arith),
      read_integer-decimal n 1 zs (omega arith),
      ne→== n 0 (omega arith),
      le→ltb max_args n (omega arith),
      waits,
    )

-- A request that stops anywhere is incomplete, unless it stops behind its header or a whole element.
parse_stops :
    (ss : List Bytes) (early late : Bytes)
    → 0 < length ss
    → length ss ≤ max_args
    → AllShort ss
    → request ss [] ≡ early ++ late
    → late ≢ []
    → (parse granted early ≡ incomplete)
      ⊎ ((ts us : List Bytes) × (ss ≡ ts ++ us) × (early ≡ begins (length ss) ts))
unfolding parse
parse_stops ss [] late some_element few short h some_left = inl refl
parse_stops ss (c ∷ early) late some_element few short h some_left =
    let n = length ss in
    let star : c ≡ b'*' = cc in
    let tails : decimal n ++ 13 ∷ 10 ∷ bulks ss [] ≡ early ++ late = cc in
    elim (read_integer_cut n 1 (bulks ss []) early late tails) [
      | inl waits ↦ inl (parse_waits c early star waits)
      | inr (zs, e, f) ↦
          let same = ap (λ (a : ℕ). a ∷ early) star ∙ ap (◌∷◌ b'*') e in
          elim (read_elements_prefix ss zs late (1 + (length (decimal n) + 2)) short f some_left) [
            | inl waits ↦ inl (
                subst (λ r. parse granted r ≡ incomplete) (sym same)
                  (parse_elements_waits n zs some_element few waits))
            | inr (ts, us, g, k) ↦
                inr (ts, us, g, same ∙ ap (λ z. b'*' ∷ (decimal n ++ 13 ∷ 10 ∷ z)) k)
          ]
    ]

AllShort-front : (ts us : List Bytes) → AllShort (ts ++ us) → AllShort ts
AllShort-front [] us h = tt
AllShort-front (t ∷ ts) us (ht, h) = (ht, AllShort-front ts us h)

no_length : {A : Type 0} (xs : List A) → length xs ≡ 0 → xs ≡ []
no_length [] h = refl
no_length (x ∷ xs) h = absurd (omega arith)

-- Fewer elements than all have come, if anything is missing.
fewer :
    (ss ts us : List Bytes) (early late : Bytes)
    → request ss [] ≡ early ++ late
    → late ≢ []
    → ss ≡ ts ++ us
    → early ≡ begins (length ss) ts
    → length ts < length ss
fewer ss ts [] early late h some_left all e =
    let whole : early ≡ request ss [] = e ∙ ap (begins (length ss)) (sym (all ∙ append-nil ts)) in
    absurd (
      some_left (
        no_length late (omega (arith, ap length h, ap length whole, length-append {0} early late))))
fewer ss ts (u ∷ us) early late h some_left all e =
    omega (arith, ap length all, length-append {0} ts (u ∷ us))

-- With memory, a request of one to 100 strings, each of at most 2 ^ 20 bytes, that stops anywhere before
-- its end is incomplete, unless it stops right behind its header or behind a whole element: there it
-- is refused as malformed.
pub parse_prefix :
    (ss : List Bytes) (early late : Bytes)
    → 0 < length ss
    → length ss ≤ max_args
    → AllShort ss
    → request ss [] ≡ early ++ late
    → late ≢ []
    → (parse granted early ≡ incomplete)
      ⊎ ((ts us : List Bytes) × (ss ≡ ts ++ us)
          × (early ≡ begins (length ss) ts)
          × (parse granted early ≡ error))
parse_prefix ss early late some_element few short h some_left =
    elim (parse_stops ss early late some_element few short h some_left) [
      | inl waits ↦ inl waits
      | inr (ts, us, all, e) ↦
          let refused =
            parse_cut (length ss) ts few (fewer ss ts us early late h some_left all e)
              (AllShort-front ts us (subst AllShort all short)) in
          inr (ts, us, all, e, subst (λ r. parse granted r ≡ error) (sym e) refused)
    ]
