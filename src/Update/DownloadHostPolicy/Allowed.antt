-- ===== src/Update/DownloadHostPolicy/Allowed.antt =====
-- What an accepted URL looks like.
use wgrd_mod_manager.Common.{
  ℕ, ◌+◌, ◌≡◌, refl, sym, ap, ap₂, subst, ◌∙◌, ◌↔◌, ◌⊎◌, inl, inr, Bool, true, false, not, ◌&&◌,
  ◌||◌, List, [], ◌∷◌, ◌++◌, map, arith, leb, ◌==◌, if◌then◌else◌, ==_iff, Bool-cases, length, take,
  drop, all, any, Any, take-append-drop, Bytes, codes, same, same_iff, same_refl,
}
use wgrd_mod_manager.Update.DownloadHostPolicy.{
  scheme, allowed_hosts, is_boundary, before_boundary, same_host, host_of, accepts,
}

-- what may stand behind a host: nothing, or what a slash, a question mark or a hash begins
abbrev pub IsRest : Bytes → Type 0
IsRest [] = Unit
IsRest (c ∷ rest) = (c ≡ b'/') ⊎ ((c ≡ b'?') ⊎ (c ≡ b'#'))

-- the letters of a text in lower case, by their ASCII codes
abbrev pub lower_case : Bytes → Bytes
lower_case text = map (λ c. if leb 65 c && leb c 90 then c + 32 else c) text

-- one of the four hosts, in letters of either case
abbrev pub IsHost : Bytes → Type 0
IsHost host =
    Any (λ allowed. lower_case host ≡ allowed)
      (codes "github.com"
        ∷ codes "api.github.com"
        ∷ codes "raw.githubusercontent.com"
        ∷ codes "objects.githubusercontent.com"
        ∷ [])

same_host_iff :
    (host allowed : Bytes) → (same_host host allowed ≡ true) ↔ (lower_case host ≡ allowed)
unfolding same_host
same_host_iff [] [] = (λ h. refl, λ h. refl)
same_host_iff [] (a ∷ allowed) =
    (λ h. absurd (ground (arith, h)), λ h. absurd (cons_ne_nil (sym h)))
  where
    cons_ne_nil : a ∷ allowed ≡ [] → ⊥
    cons_ne_nil h = cc
same_host_iff (c ∷ host) [] = (λ h. absurd (ground (arith, h)), λ h. absurd (cons_ne_nil h))
  where
    cons_ne_nil : {x : ℕ} {xs : Bytes} → x ∷ xs ≡ [] → ⊥
    cons_ne_nil h = cc
same_host_iff (c ∷ host) (a ∷ allowed) = (
  λ h. ap₂ (◌∷◌) (ground (arith, h)) ((same_host_iff host allowed).0 (ground (arith, h))),
  λ h. ground (arith, h, (same_host_iff host allowed).1),
)

any-Any :
    (host : Bytes) (hosts : List Bytes)
    → any (same_host host) hosts ≡ true
    → Any (λ allowed. lower_case host ≡ allowed) hosts
any-Any host [] h = absurd (ground (arith, h))
any-Any host (a ∷ hosts) h = elim (Bool-cases (same_host host a)) [
  | inl e ↦ inl ((same_host_iff host a).0 e)
  | inr e ↦ inr (any-Any host hosts (rw e at h))
]

Any-any :
    (host : Bytes) (hosts : List Bytes)
    → Any (λ allowed. lower_case host ≡ allowed) hosts
    → any (same_host host) hosts ≡ true
Any-any host [] h = absurd h
Any-any host (a ∷ hosts) (inl e) = ground (arith, (same_host_iff host a).1 e)
Any-any host (a ∷ hosts) (inr e) = ground (arith, Any-any host hosts e)

boundary_cases : (c : ℕ) → is_boundary c ≡ true → (c ≡ b'/') ⊎ ((c ≡ b'?') ⊎ (c ≡ b'#'))
boundary_cases c h = elim (Bool-cases (c == b'/')) [
  | inl e ↦ inl ((==_iff c b'/').0 e)
  | inr e ↦ elim (Bool-cases (c == b'?')) [
    | inl f ↦ inr (inl ((==_iff c b'?').0 f))
    | inr f ↦ inr (inr (ground (arith, e, f, h)))
  ]
]

is_boundary-cases : (c : ℕ) → (c ≡ b'/') ⊎ ((c ≡ b'?') ⊎ (c ≡ b'#')) → is_boundary c ≡ true
is_boundary-cases c (inl e) = ground (arith, e)
is_boundary-cases c (inr (inl e)) = ground (arith, e)
is_boundary-cases c (inr (inr e)) = ground (arith, e)

before_boundary-IsRest :
    (text : Bytes) → (rest : Bytes) × (text ≡ before_boundary text ++ rest) × IsRest rest
unfolding before_boundary
before_boundary-IsRest [] = ([], refl, tt)
before_boundary-IsRest (c ∷ text) = elim (Bool-cases (is_boundary c)) [
  | inl h ↦ (c ∷ text, rw h refl, boundary_cases c h)
  | inr h ↦ let (rest, e, r) = before_boundary-IsRest text in (rest, rw h (ap (◌∷◌ c) e), r)
]

before_boundary-host :
    (host rest : Bytes)
    → any is_boundary host ≡ false
    → IsRest rest
    → before_boundary (host ++ rest) ≡ host
unfolding before_boundary
before_boundary-host [] [] h r = refl
before_boundary-host [] (c ∷ rest) h r = rw (is_boundary-cases c r) refl
before_boundary-host (c ∷ host) rest h r = ground (arith, before_boundary-host host rest)

host_of-scheme :
    (url : Bytes) → same (take 8 url) scheme ≡ true → host_of url ≡ before_boundary (drop 8 url)
unfolding host_of
host_of-scheme url h = rw (h, host_of) refl

host_of_other : (url : Bytes) → same (take 8 url) scheme ≡ false → host_of url ≡ []
unfolding host_of
host_of_other url h = rw (h, host_of) refl

accepts-any :
    (url : Bytes) → accepts url ≡ true → any (same_host (host_of url)) allowed_hosts ≡ true
unfolding accepts
accepts-any url h =
    last_test (length (host_of url) == 0) (any (λ c. c == b'@' || c == b':') (host_of url))
      (any (same_host (host_of url)) allowed_hosts) h
  where
    last_test : (a b c : Bool) → (if a then false else if b then false else c) ≡ true → c ≡ true
    last_test a b c h = ground arith

-- An accepted URL begins with https://, and up to its end or to a slash, a question mark or a hash
-- stands behind that a text that in lower case is one of the four hosts, octet by octet: no user, no
-- port and no other host can stand there.
pub accepts-IsHost :
    (url : Bytes)
    → accepts url ≡ true
    → (host : Bytes) × (rest : Bytes) × (url ≡ codes "https://" ++ (host ++ rest))
      × IsRest rest
      × IsHost host
unfolding same_host
accepts-IsHost url h = elim (Bool-cases (same (take 8 url) scheme)) [
  | inl e ↦
      let (rest, f, r) = before_boundary-IsRest (drop 8 url) in
      let g : take 8 url ≡ scheme = (same_iff (take 8 url) scheme).0 e in
      (
        before_boundary (drop 8 url),
        rest,
        sym (take-append-drop 8 url) ∙ ap₂ (◌++◌) g f,
        r,
        any-Any (before_boundary (drop 8 url)) allowed_hosts (
            subst (λ host. any (same_host host) allowed_hosts ≡ true) (host_of-scheme url e)
              (accepts-any url h)),
      )
  | inr e ↦
      let none_fits : any (same_host []) allowed_hosts ≡ true =
        subst (λ host. any (same_host host) allowed_hosts ≡ true) (host_of_other url e)
          (accepts-any url h) in
      absurd (refused none_fits)
]
  where
    refused : false ≡ true → ⊥
    refused e = cc

-- an octet that a host is made of
abbrev is_plain : ℕ → Bool
is_plain c = not (is_boundary c) && not (c == b'@' || c == b':')

same_host-all :
    (host allowed : Bytes)
    → all is_plain allowed ≡ true
    → same_host host allowed ≡ true
    → all is_plain host ≡ true
unfolding same_host
same_host-all [] [] p h = refl
same_host-all [] (a ∷ allowed) p h = refl
same_host-all (c ∷ host) [] p h = absurd (ground (arith, h))
same_host-all (c ∷ host) (a ∷ allowed) p h = ground (arith, same_host-all host allowed)

plain-any :
    (host : Bytes)
    → all is_plain host ≡ true
    → (any is_boundary host ≡ false) × (any (λ c. c == b'@' || c == b':') host ≡ false)
plain-any [] h = (refl, refl)
plain-any (c ∷ host) h = ground (arith, plain-any host)

allowed-all : (host : Bytes) → any (same_host host) allowed_hosts ≡ true → all is_plain host ≡ true
allowed-all host h = ground (
  arith,
  same_host-all host (codes "github.com") refl,
  same_host-all host (codes "api.github.com") refl,
  same_host-all host (codes "raw.githubusercontent.com") refl,
  same_host-all host (codes "objects.githubusercontent.com") refl,
)

filled :
    (host : Bytes)
    → any (same_host host) allowed_hosts ≡ true
    → (if length host == 0 then false else true) ≡ true
unfolding same_host
filled [] h = h
filled (c ∷ host) h = ground arith

accepts_of_same_host :
    (host rest : Bytes)
    → any (same_host host) allowed_hosts ≡ true
    → IsRest rest
    → accepts (scheme ++ (host ++ rest)) ≡ true
unfolding accepts
accepts_of_same_host host rest h r =
    let (b, p) = plain-any host (allowed-all host h) in
    let q : host_of (scheme ++ (host ++ rest)) ≡ host =
      host_of-scheme (scheme ++ (host ++ rest)) (same_refl scheme)
      ∙ before_boundary-host host rest b r in
    subst
      (λ x.
        (if length x == 0
          then false
          else if any (λ c. c == b'@' || c == b':') x
          then false
          else any (same_host x) allowed_hosts)
        ≡ true)
      (sym q) (rw p (rw h (filled host h)))

-- Every URL that begins with https:// and one of the four hosts, in letters of either case, is
-- accepted, when behind the host it ends or goes on with a slash, a question mark or a hash.
pub accepts_allowed :
    (host rest : Bytes)
    → IsHost host
    → IsRest rest
    → accepts (codes "https://" ++ (host ++ rest)) ≡ true
accepts_allowed host rest h r = accepts_of_same_host host rest (Any-any host allowed_hosts h) r
