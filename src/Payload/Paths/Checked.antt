-- ===== src/Payload/Paths/Checked.antt =====
-- What `Normalise` has tested of a path, and that its answer is its own normal form.
use wgrd_mod_manager.Common.{
  suc, ◌≤◌, ◌≡◌, refl, sym, ap, subst, ◌∙◌, ◌⊎◌, inl, inr, true, false, not, List, [], ◌∷◌, arith,
  leb, ◌==◌, length, get_or, Bytes, same, ok, demand, demand-eq-ok, bind-eq-ok, pieces_of, contains,
}
use wgrd_mod_manager.Payload.Paths.{
  empty, too_long, absolute, path_limit, extension_file_name, to_upper, stem_of,
  is_reserved_device_name, validate_component, validate_components, check_characters, to_slashes,
  name_of, judge_path, normalise,
}

-- what `Normalise` has tested of a path that it lets through
pub record IsChecked (path : Bytes) : Type 0 where
  pub not_empty : 1 ≤ length path
  pub length_max : length path ≤ path_limit
  pub slashes : contains 92 path ≡ false
  pub characters : check_characters path ≡ ok tt
  pub relative : (get_or path 0 0 == b'/') ≡ false
  pub components : validate_components (pieces_of b'/' path) ≡ ok tt

length-to_slashes : (path : Bytes) → length (to_slashes path) ≡ length path
unfolding to_slashes
length-to_slashes [] = refl
length-to_slashes (c ∷ path) = ap suc (length-to_slashes path)

contains-to_slashes : (path : Bytes) → contains 92 (to_slashes path) ≡ false
unfolding to_slashes
contains-to_slashes [] = refl
contains-to_slashes (c ∷ path) = ground (arith, contains-to_slashes path)

to_slashes_same : (path : Bytes) → contains 92 path ≡ false → to_slashes path ≡ path
unfolding to_slashes
to_slashes_same [] h = refl
to_slashes_same (c ∷ path) h = ground (arith, to_slashes_same path)

name_of-result :
    (path : Bytes) (components : List Bytes) (q : Bytes)
    → name_of path components ≡ ok q
    → (q ≡ extension_file_name) ⊎ (q ≡ path)
unfolding name_of
name_of-result path components q h = ground arith

extension_file_name-normalise : normalise extension_file_name ≡ ok extension_file_name
unfolding normalise judge_path name_of validate_components validate_component check_characters
    to_slashes to_upper stem_of is_reserved_device_name pieces_of same
extension_file_name-normalise = refl

extension_file_name-IsChecked : IsChecked extension_file_name
unfolding validate_components validate_component check_characters to_upper stem_of
    is_reserved_device_name pieces_of same
extension_file_name-IsChecked = record {
  not_empty = omega arith;
  length_max = omega arith;
  slashes = refl;
  characters = refl;
  relative = refl;
  components = refl;
}

-- What `Normalise` has checked of the path with slashes.
record Passes (path q : Bytes) : Type 0 where
  pub judged : judge_path (to_slashes path) ≡ ok q
  pub safe : IsChecked (to_slashes path)
  pub named : (q ≡ extension_file_name) ⊎ (q ≡ to_slashes path)

normalise-Passes : (path q : Bytes) → normalise path ≡ ok q → Passes path q
unfolding normalise judge_path
normalise-Passes path q h =
    let (_, e0, h0) = bind-eq-ok (demand (not (length path == 0)) empty) _ h in
    let (_, e1, h1) = bind-eq-ok (demand (leb (length path) path_limit) too_long) _ h0 in
    let (_, e2, h2) = bind-eq-ok (check_characters (to_slashes path)) _ h1 in
    let (_, e3, h3) =
      bind-eq-ok (demand (not (get_or (to_slashes path) 0 0 == b'/')) absolute) _ h2 in
    let (_, e4, h4) = bind-eq-ok (validate_components (pieces_of b'/' (to_slashes path))) _ h3 in
    record {
      judged = h1;
      safe = record {
        not_empty = ground (arith, demand-eq-ok _ empty e0, length-to_slashes path);
        length_max = ground (arith, demand-eq-ok _ too_long e1, length-to_slashes path);
        slashes = contains-to_slashes path;
        characters = e2;
        relative = ground (arith, demand-eq-ok _ absolute e3);
        components = e4;
      };
      named = name_of-result _ _ q h4;
    }

pub normalise-IsChecked : (path q : Bytes) → normalise path ≡ ok q → IsChecked q
normalise-IsChecked path q h =
    let p = normalise-Passes path q h in
    elim p.named [
      | inl e ↦ subst IsChecked (sym e) extension_file_name-IsChecked
      | inr e ↦ subst IsChecked (sym e) p.safe
    ]

normalise-judge_path : (path : Bytes) → IsChecked path → normalise path ≡ judge_path path
unfolding normalise
normalise-judge_path path v =
    rw (size, normalise) (rw (short, normalise) (ap judge_path (to_slashes_same path v.slashes)))
  where
    size : length path == 0 ≡ false
    size = ground (arith, v.not_empty)

    short : leb (length path) path_limit ≡ true
    short = ground (arith, v.length_max)

-- What `Normalise` answers with is its own normal form.
normalise-normalise : (path q : Bytes) → normalise path ≡ ok q → normalise q ≡ ok q
normalise-normalise path q h =
    let p = normalise-Passes path q h in
    elim p.named [
      | inl e ↦ subst (λ r. normalise r ≡ ok r) (sym e) extension_file_name-normalise
      | inr e ↦ normalise-judge_path q (normalise-IsChecked path q h) ∙ ap judge_path e ∙ p.judged
    ]
