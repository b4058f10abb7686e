-- ===== src/Payload/Paths/Safe.antt =====
-- What a path that is let through looks like.
use wgrd_mod_manager.Common.{
  joined, joined-pieces_of, pieces_of-apart, ℕ, ◌-◌, ◌≤◌, ◌≡◌, refl, sym, ap, ◌∙◌, ◌≢◌, inl, inr,
  true, false, not, ◌&&◌, ◌||◌, List, [], ◌∷◌, ◌++◌, map, arith, leb, ◌==◌, if◌then◌else◌,
  Bool-cases, length, get_or, all, any, All, Bytes, codes, same, same_iff, ok, demand, demand-eq-ok,
  bind-eq-ok, pieces_of, contains,
}
use wgrd_mod_manager.Payload.Paths.{
  traversal, alternate_stream, control_character, empty_component, trailing_dot_or_space,
  reserved_device_name, to_upper, stem_of, is_reserved_device_name, last_of, validate_component,
  validate_components, check_characters, normalise,
}
use wgrd_mod_manager.Payload.Paths.Checked.{normalise-IsChecked}

-- the path with the letters in upper case, by their ASCII codes
abbrev upper_case : Bytes → Bytes
upper_case text = map (λ c. if leb 97 c && leb c 122 then c - 32 else c) text

abbrev devices : List Bytes
devices =
    (codes "CON" ∷ codes "PRN" ∷ codes "AUX" ∷ codes "NUL" ∷ [])
    ++ (map (λ d. codes "COM" ++ d ∷ []) (codes "123456789")
        ++ map (λ d. codes "LPT" ++ d ∷ []) (codes "123456789"))

-- the name of a file or folder that Windows takes as it is written
pub record IsPlainName (name : Bytes) : Type 0 where
  pub not_empty : name ≢ []
  pub not_here : name ≢ codes "."
  pub not_up : name ≢ codes ".."
  pub no_last_dot : (front : Bytes) → name ≢ front ++ b'.' ∷ []
  pub no_last_space : (front : Bytes) → name ≢ front ++ b' ' ∷ []
  pub no_device :
      All
        (λ device.
          (upper_case name ≢ device) × ((rest : Bytes) → upper_case name ≢ device ++ b'.' ∷ rest))
        devices

-- A relative path of at most 240 octets with slashes alone, no control characters and no colon, of
-- names with a slash between each two, none of which is empty, goes up, names a device or ends in a
-- dot or a space.
pub record IsSafe (path : Bytes) : Type 0 where
  pub not_empty : path ≢ []
  pub length_max : length path ≤ 240
  pub characters : All (λ c. (32 ≤ c) × (c ≢ b':') × (c ≢ 92)) path
  pub relative : (rest : Bytes) → path ≢ b'/' ∷ rest
  pub names : List Bytes
  pub apart : All (λ name. contains b'/' name ≡ false) names
  pub together : joined b'/' names ≡ path
  pub plain : All IsPlainName names

-- the octets of a path that has no backslash
checked-characters :
    (path : Bytes)
    → check_characters path ≡ ok tt
    → contains 92 path ≡ false
    → All (λ c. (32 ≤ c) × (c ≢ b':') × (c ≢ 92)) path
unfolding check_characters
checked-characters [] h b = tt
checked-characters (c ∷ path) h b =
    let (_, e0, h0) = bind-eq-ok (demand (leb 32 c) control_character) _ h in
    let (_, e1, h1) = bind-eq-ok (demand (not (c == b':')) alternate_stream) _ h0 in
    (
      (
        ground (arith, demand-eq-ok _ control_character e0),
        λ e. ground (arith, demand-eq-ok _ alternate_stream e1, e),
        λ e. ground (arith, b, e),
      ),
      checked-characters path h1 (ground (arith, b)),
    )

last_of-append : (front : Bytes) (x : ℕ) → last_of (front ++ x ∷ []) 0 ≡ x
last_of-append [] x = refl
last_of-append (c ∷ []) x = refl
last_of-append (c ∷ d ∷ front) x = last_of-append (d ∷ front) x

stem_of-upper_case : (name : Bytes) → to_upper (stem_of name) ≡ stem_of (upper_case name)
unfolding stem_of to_upper
stem_of-upper_case [] = refl
stem_of-upper_case (c ∷ name) = elim (Bool-cases (c == 46)) [
  | inl e ↦ ground (arith, e)
  | inr e ↦ ground (arith, e, stem_of-upper_case name)
]

stem_of-dot :
    (name rest : Bytes) → contains b'.' name ≡ false → stem_of (name ++ b'.' ∷ rest) ≡ name
unfolding stem_of
stem_of-dot [] rest h = refl
stem_of-dot (c ∷ name) rest h = ground (arith, stem_of-dot name rest)

stem_of_self : (name : Bytes) → contains b'.' name ≡ false → stem_of name ≡ name
unfolding stem_of
stem_of_self [] h = refl
stem_of_self (c ∷ name) h = ground (arith, stem_of_self name)

no_device_of :
    (name : Bytes) (names : List Bytes)
    → all (λ device. not (contains b'.' device)) names ≡ true
    → any (λ device. same device (to_upper (stem_of name))) names ≡ false
    → All
        (λ device.
          (upper_case name ≢ device) × ((rest : Bytes) → upper_case name ≢ device ++ b'.' ∷ rest))
        names
no_device_of name [] p h = tt
no_device_of name (device ∷ names) p h = (
  (
    λ e. differs (stem_of-upper_case name ∙ ap stem_of e ∙ stem_of_self device dotless),
    λ rest e. differs (stem_of-upper_case name ∙ ap stem_of e ∙ stem_of-dot device rest dotless),
  ),
  no_device_of name names (ground (arith, p)) (ground (arith, h)),
)
  where
    dotless : contains b'.' device ≡ false
    dotless = ground (arith, p)

    differs : to_upper (stem_of name) ≡ device → ⊥
    differs e = ground (arith, h, (same_iff device (to_upper (stem_of name))).1 (sym e))

validated_name : (name : Bytes) → validate_component name ≡ ok tt → IsPlainName name
unfolding validate_component is_reserved_device_name
validated_name name h =
    let (_, e0, h0) = bind-eq-ok (demand (not (length name == 0)) empty_component) _ h in
    let (_, e1, h1) =
      bind-eq-ok (demand (not (same name (codes ".") || same name (codes ".."))) traversal) _ h0 in
    let (_, e2, e3) =
      bind-eq-ok
        (demand (not (last_of name 0 == b'.' || last_of name 0 == b' ')) trailing_dot_or_space) _
        h1 in
    let filled = demand-eq-ok _ empty_component e0 in
    let stays = demand-eq-ok _ traversal e1 in
    let ends = demand-eq-ok _ trailing_dot_or_space e2 in
    let free = demand-eq-ok _ reserved_device_name e3 in
    record {
      not_empty = λ e. ground (arith, filled, ap length e);
      not_here = λ e. ground (arith, stays, (same_iff name (codes ".")).1 e);
      not_up = λ e. ground (arith, stays, (same_iff name (codes "..")).1 e);
      no_last_dot =
          λ front e. ground (arith, ends, ap (λ n. last_of n 0) e ∙ last_of-append front b'.');
      no_last_space =
          λ front e. ground (arith, ends, ap (λ n. last_of n 0) e ∙ last_of-append front b' ');
      no_device = no_device_of name devices refl (ground (arith, free));
    }

validated_names : (names : List Bytes) → validate_components names ≡ ok tt → All IsPlainName names
unfolding validate_components
validated_names [] h = tt
validated_names (name ∷ names) h =
    let (_, e, h') = bind-eq-ok (validate_component name) _ h in
    (validated_name name e, validated_names names h')

-- Every path that `Normalise` lets through is relative, of at most 240 octets, none of them a control
-- character, a colon or a backslash; and between its slashes stands no name that is empty, `.` or
-- `..`, that ends in a dot or a space, or that up to a dot or its end, in upper case, is a device's.
pub normalise-IsSafe : (path q : Bytes) → normalise path ≡ ok q → IsSafe q
normalise-IsSafe path q h =
    let v = normalise-IsChecked path q h in
    record {
      not_empty = λ e. ground (arith, v.not_empty, ap length e);
      length_max = v.length_max;
      characters = checked-characters q v.characters v.slashes;
      relative = λ rest e. ground (arith, v.relative, ap (λ p. get_or p 0 0) e);
      names = pieces_of b'/' q;
      apart = pieces_of-apart b'/' q;
      together = joined-pieces_of b'/' q;
      plain = validated_names (pieces_of b'/' q) v.components;
    }
