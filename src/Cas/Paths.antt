-- ===== src/Cas/Paths.antt =====
-- The paths that src/cas.c makes of hashes: no two coincide.
use podcache.Prelude.{
  ℕ, zero, suc, ◌+◌, ◌*◌, ◌≤◌, ◌<◌, Bytes, codes, [], ◌∷◌, ◌++◌, ◌≡◌, ◌≢◌, refl, sym, ap, ◌∙◌,
  arith, length, take, drop, length-append, length-take, length-drop, true, Bool-cases, ◌==◌, inl,
  inr, ◌⊎◌,
}
use podcache.Hash.Sha256.{sha256_string}
use podcache.Hash.Sha256.Output.{sha256_string-AllHex, IsWord}
use podcache.Cas.Posix.{Apart, goes}
use podcache.Cas.Plain.{inner-at, directory-at, inner-is_below, directory-is_below}
use podcache.Cas.{directory, substring, inner, slash}

split_at : (n : ℕ) (xs : Bytes) → xs ≡ take n xs ++ drop n xs
split_at zero xs = refl
split_at (suc n) [] = refl
split_at (suc n) (x ∷ xs) = ap (◌∷◌ x) (split_at n xs)

drop-nil : (n : ℕ) → drop {A = ℕ} n [] ≡ []
drop-nil zero = refl
drop-nil (suc n) = refl

drop-drop : (m n : ℕ) (xs : Bytes) → drop m (drop n xs) ≡ drop (n + m) xs
drop-drop m zero xs = let at : m ≡ 0 + m = omega arith in ap (λ k. drop k xs) at
drop-drop m (suc n) [] = drop-nil m ∙ sym (drop-nil (suc n + m))
drop-drop m (suc n) (x ∷ xs) =
    let at : suc (n + m) ≡ suc n + m = omega arith in
    drop-drop m n xs ∙ ap (λ k. drop k (x ∷ xs)) at

drop_all : (n : ℕ) (xs : Bytes) → length xs ≤ n → drop n xs ≡ []
drop_all zero [] h = refl
drop_all zero (x ∷ xs) h = absurd (omega arith)
drop_all (suc n) [] h = refl
drop_all (suc n) (x ∷ xs) h = drop_all n xs (omega arith)

-- lists of equal lengths that begin two equal lists
append-split :
    (xs us ys vs : Bytes) → length xs ≡ length us → xs ++ ys ≡ us ++ vs → (xs ≡ us) × (ys ≡ vs)
append-split [] [] ys vs l h = (refl, h)
append-split [] (u ∷ us) ys vs l h = absurd (omega arith)
append-split (x ∷ xs) [] ys vs l h = absurd (omega arith)
append-split (x ∷ xs) (u ∷ us) ys vs l h =
    let tails : xs ++ ys ≡ us ++ vs = cc in
    let heads : x ≡ u = cc in
    let (e, f) = append-split xs us ys vs (omega arith) tails in
    (ap (λ (c : ℕ). c ∷ xs) heads ∙ ap (◌∷◌ u) e, f)

module _ (base h : Bytes) (long : length h ≡ 64) where
  length-substring : (n : ℕ) → n < 4 → length (substring h n) ≡ 16
  unfolding substring
  length-substring n below =
      omega (arith, length-take {0} 16 (drop (16 * n) h), length-drop {0} (16 * n) h)

  length-directory : (n : ℕ) → n ≤ 4 → length (directory base h n) ≡ length base + 17 * n
  unfolding directory
  length-directory zero below = omega arith
  length-directory (suc n) below = omega (
    arith,
    length-directory n (omega arith),
    length-substring n (omega arith),
    length-append {0} (directory base h n) (slash ∷ substring h n),
  )

  length-inner : (name : Bytes) → length (inner base h name) ≡ length base + 69 + length name
  unfolding inner
  length-inner name = omega (
    arith,
    length-directory 4 (omega arith),
    length-append {0} (directory base h 4) (slash ∷ name),
  )

module _ (base h g : Bytes) (long : length h ≡ 64) (long' : length g ≡ 64) where
  -- equal directories have equal parts
  same_parts :
      (n : ℕ)
      → n ≤ 4
      → directory base h n ≡ directory base g n
      → (m : ℕ) → m < n
      → substring h m ≡ substring g m
  unfolding directory
  same_parts zero below e m lt = absurd (omega arith)
  same_parts (suc n) below e m lt =
      let (front, behind) =
        append-split (directory base h n) (directory base g n) (slash ∷ substring h n)
          (slash ∷ substring g n)
          (length-directory base h long n (omega arith)
            ∙ sym (length-directory base g long' n (omega arith)))
          e in
      let part : substring h n ≡ substring g n = cc in
      elim (Bool-cases (m == n)) [
        | inl here ↦ let at : m ≡ n = ground arith in rw at part
        | inr other ↦ same_parts n (omega arith) front m (ground arith)
      ]

  join :
      (n : ℕ)
      → substring h n ≡ substring g n
      → drop (16 * n + 16) h ≡ drop (16 * n + 16) g
      → drop (16 * n) h ≡ drop (16 * n) g
  unfolding substring
  join n part rest =
      split_at 16 (drop (16 * n) h)
      ∙ ap (λ t. t ++ drop 16 (drop (16 * n) h)) part
      ∙ ap (λ t. take 16 (drop (16 * n) g) ++ t)
          (drop-drop 16 (16 * n) h ∙ rest ∙ sym (drop-drop 16 (16 * n) g))
      ∙ sym (split_at 16 (drop (16 * n) g))

  directory-inj : directory base h 4 ≡ directory base g 4 → h ≡ g
  directory-inj e =
      let part : (m : ℕ) → m < 4 → substring h m ≡ substring g m = same_parts 4 (omega arith) e in
      let end = drop_all 64 h (omega arith) ∙ sym (drop_all 64 g (omega arith)) in
      join 0 (part 0 (omega arith)) (
        join 1 (part 1 (omega arith))
          (join 2 (part 2 (omega arith)) (join 3 (part 3 (omega arith)) end)))

  -- A file of one hash is no directory of another, and no file of it.
  pub inner-ne-directory : (name : Bytes) (n : ℕ) → n ≤ 4 → inner base h name ≢ directory base g n
  inner-ne-directory name n below e =
      omega
        (arith, ap length e, length-inner base h long name, length-directory base g long' n below)

  pub inner-ne-inner :
      (x y : Bytes) → (length x ≢ length y) ⊎ (h ≢ g) → inner base h x ≢ inner base g y
  unfolding inner
  inner-ne-inner x y (inl other) e =
      other (omega (arith, ap length e, length-inner base h long x, length-inner base g long' y))
  inner-ne-inner x y (inr other) e =
      let (same, _) =
        append-split (directory base h 4) (directory base g 4) (slash ∷ x) (slash ∷ y)
          (length-directory base h long 4 (omega arith)
            ∙ sym (length-directory base g long' 4 (omega arith)))
          e in
      other (directory-inj same)

module _ (base h g : Bytes) (word : IsWord 64 h) (word' : IsWord 64 g) where
  pub inner-Apart-directory :
      (name : Bytes)
      → goes 47 name ≡ true
      → (n : ℕ) → n ≤ 4
      → Apart (inner base h name) (directory base g n)
  inner-Apart-directory name plain n below = record {
    base = base;
    q_behind = inner [] h name;
    p_behind = directory [] g n;
    q_path = inner-at base h name;
    p_path = directory-at base g n;
    q_below = inner-is_below h word name plain;
    p_below = directory-is_below g word' n below;
    differs = inner-ne-directory base h g word.0 word'.0 name n below;
  }

  pub inner-Apart-inner :
      (x y : Bytes)
      → goes 47 x ≡ true
      → goes 47 y ≡ true
      → (length x ≢ length y) ⊎ (h ≢ g)
      → Apart (inner base h x) (inner base g y)
  inner-Apart-inner x y plain plain' other = record {
    base = base;
    q_behind = inner [] h x;
    p_behind = inner [] g y;
    q_path = inner-at base h x;
    p_path = inner-at base g y;
    q_below = inner-is_below h word x plain;
    p_below = inner-is_below g word' y plain';
    differs = inner-ne-inner base h g word.0 word'.0 x y other;
  }

-- A file that is apart from those of a hash.
pub record Far (q base h : Bytes) : Type 0 where
  pub dirs : (n : ℕ) → n ≤ 4 → Apart q (directory base h n)
  pub value : Apart q (inner base h (codes "value.dat"))
  pub time : Apart q (inner base h (codes "time.dat"))

-- the files of another key with another hash
module _ (base j k : Bytes) (other : sha256_string true k ≢ sha256_string true j) where
  abbrev own : IsWord 64 (sha256_string true k)
  own = sha256_string-AllHex k

  abbrev others : IsWord 64 (sha256_string true j)
  others = sha256_string-AllHex j

  pub Far-value :
      Far (inner base (sha256_string true k) (codes "value.dat")) base (sha256_string true j)
  Far-value = record {
    dirs = inner-Apart-directory base _ _ own others (codes "value.dat") refl;
    value =
        inner-Apart-inner base _ _ own others (codes "value.dat") (codes "value.dat") refl refl
          (inr other);
    time =
        inner-Apart-inner base _ _ own others (codes "value.dat") (codes "time.dat") refl refl
          (inl (λ e. omega (arith, e)));
  }

  pub Far-time :
      Far (inner base (sha256_string true k) (codes "time.dat")) base (sha256_string true j)
  Far-time = record {
    dirs = inner-Apart-directory base _ _ own others (codes "time.dat") refl;
    value =
        inner-Apart-inner base _ _ own others (codes "time.dat") (codes "value.dat") refl refl
          (inl (λ e. omega (arith, e)));
    time =
        inner-Apart-inner base _ _ own others (codes "time.dat") (codes "time.dat") refl refl
          (inr other);
  }
