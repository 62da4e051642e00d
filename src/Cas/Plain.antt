-- ===== src/Cas/Plain.antt =====
-- The form of the paths that src/cas.c makes of hashes.
use podcache.Prelude.{
  ℕ, zero, suc, ◌*◌, ◌≤◌, ◌<◌, Bytes, [], ◌∷◌, ◌++◌, ◌≡◌, ◌≢◌, refl, sym, ap, ◌∙◌, arith, length,
  take, drop, length-take, length-drop, true,
}
use podcache.Hash.Sha256.Output.{AllHex, IsWord}
use podcache.Cas.{directory, substring, inner, slash}
use podcache.Cas.Posix.{goes, is_below}

goes-append :
    (b : ℕ) (x y : Bytes) → goes b x ≡ true → goes 47 y ≡ true → goes b (x ++ 47 ∷ y) ≡ true
goes-append b [] y h g = ground arith
goes-append b (c ∷ x) y h g = ground (arith, goes-append c x y)

is_below-append :
    (x y : Bytes) → is_below x ≡ true → goes 47 y ≡ true → is_below (x ++ 47 ∷ y) ≡ true
is_below-append [] y h g = g
is_below-append (c ∷ x) y h g = ground (arith, goes-append c x y)

hex-goes : (b : ℕ) (s : Bytes) → b ≢ 47 → AllHex s → goes b s ≡ true
hex-goes b [] ne h = ground arith
hex-goes b (c ∷ s) ne (digit, h) =
    let there : c ≢ 47 = λ e. ground arith in ground (arith, hex-goes c s there h)

hex_first : (s : Bytes) → 0 < length s → AllHex s → goes 47 s ≡ true
hex_first [] long h = absurd (omega arith)
hex_first (c ∷ s) long (digit, h) =
    let there : c ≢ 47 = λ e. ground arith in ground (arith, hex-goes c s there h)

AllHex-take : (n : ℕ) (s : Bytes) → AllHex s → AllHex (take n s)
AllHex-take zero s h = tt
AllHex-take (suc n) [] h = tt
AllHex-take (suc n) (c ∷ s) (digit, h) = (digit, AllHex-take n s h)

AllHex-drop : (n : ℕ) (s : Bytes) → AllHex s → AllHex (drop n s)
AllHex-drop zero s h = h
AllHex-drop (suc n) [] h = tt
AllHex-drop (suc n) (c ∷ s) (digit, h) = AllHex-drop n s h

-- The base stands in front.
append_behind : (x y z : Bytes) → (x ++ y) ++ z ≡ x ++ (y ++ z)
append_behind [] y z = refl
append_behind (c ∷ x) y z = ap (◌∷◌ c) (append_behind x y z)

pub directory-at : (base h : Bytes) (n : ℕ) → directory base h n ≡ base ++ directory [] h n
unfolding directory
directory-at base h zero = sym (append_nothing base)
  where
    append_nothing : (x : Bytes) → x ++ [] ≡ x
    append_nothing [] = refl
    append_nothing (c ∷ x) = ap (◌∷◌ c) (append_nothing x)
directory-at base h (suc n) =
    ap (λ d. d ++ slash ∷ substring h n) (directory-at base h n)
    ∙ append_behind base (directory [] h n) (slash ∷ substring h n)

pub inner-at : (base h name : Bytes) → inner base h name ≡ base ++ inner [] h name
unfolding inner
inner-at base h name =
    ap (λ d. d ++ slash ∷ name) (directory-at base h 4)
    ∙ append_behind base (directory [] h 4) (slash ∷ name)

module _ (h : Bytes) (word : IsWord 64 h) where
  substring-goes : (n : ℕ) → n < 4 → goes 47 (substring h n) ≡ true
  unfolding substring
  substring-goes n below =
      hex_first (take 16 (drop (16 * n) h))
        (omega (arith, word.0, length-take {0} 16 (drop (16 * n) h), length-drop {0} (16 * n) h))
        (AllHex-take 16 (drop (16 * n) h) (AllHex-drop (16 * n) h word.1))

  pub directory-is_below : (n : ℕ) → n ≤ 4 → is_below (directory [] h n) ≡ true
  unfolding directory
  directory-is_below zero below = refl
  directory-is_below (suc n) below =
      is_below-append (directory [] h n) (substring h n) (directory-is_below n (omega arith))
        (substring-goes n (omega arith))

  pub inner-is_below : (name : Bytes) → goes 47 name ≡ true → is_below (inner [] h name) ≡ true
  unfolding inner
  inner-is_below name plain =
      is_below-append (directory [] h 4) name (directory-is_below 4 (omega arith)) plain
