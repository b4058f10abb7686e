-- ===== src/Domain/Names/Charset.antt =====
-- What an acceptable mod name is made of.
use wgrd_mod_manager.Common.{
  ℕ, ◌≤◌, ◌<◌, ◌≡◌, ◌≢◌, true, false, [], ◌∷◌, arith, length, all, All, Bytes,
}
use wgrd_mod_manager.Domain.Names.{
  mod_name_maximum_length, is_mod_name_char, is_acceptable_mod_name,
}

-- no byte of the text is `c`
abbrev pub Lacks : ℕ → Bytes → Type 0
Lacks c = All (λ b. b ≢ c)

all-Lacks :
    (c : ℕ) (name : Bytes)
    → is_mod_name_char c ≡ false
    → all is_mod_name_char name ≡ true
    → Lacks c name
all-Lacks c [] n h = tt
all-Lacks c (b ∷ bs) n h = (λ e. differs b c e (ground arith) n, all-Lacks c bs n (ground arith))
  where
    differs : (b c : ℕ) → b ≡ c → is_mod_name_char b ≡ true → is_mod_name_char c ≡ false → ⊥
    differs b c e p q = cc

-- An acceptable name has no byte outside the set of letters, digits, `_` and `-`.
pub acceptable-Lacks :
    (c : ℕ) (name : Bytes)
    → is_mod_name_char c ≡ false
    → is_acceptable_mod_name name ≡ true
    → Lacks c name
unfolding is_acceptable_mod_name
acceptable-Lacks c name n h = all-Lacks c name n (ground arith)

pub acceptable-length :
    (name : Bytes)
    → is_acceptable_mod_name name ≡ true
    → (0 < length name) × (length name ≤ mod_name_maximum_length)
unfolding is_acceptable_mod_name
acceptable-length name h = ground arith
