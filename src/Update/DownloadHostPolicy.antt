-- ===== src/Update/DownloadHostPolicy.antt =====
-- src/manager/update/DownloadHostPolicy: the hosts that an update may be downloaded from.
pub mod Allowed
use wgrd_mod_manager.Common.{
  ℕ, ◌+◌, Bool, true, false, ◌&&◌, ◌||◌, List, [], ◌∷◌, leb, ◌==◌, if◌then◌else◌, length, take,
  drop, any, Bytes, codes, same,
}

abbrev pub scheme : Bytes
scheme = codes "https://"

abbrev pub allowed_hosts : List Bytes
allowed_hosts =
    codes "github.com"
    ∷ codes "api.github.com"
    ∷ codes "raw.githubusercontent.com"
    ∷ codes "objects.githubusercontent.com"
    ∷ []

abbrev pub lowered : ℕ → ℕ
lowered c = if leb b'A' c && leb c b'Z' then c + 32 else c

-- `find_first_of("/?#")`
abbrev pub is_boundary : ℕ → Bool
is_boundary c = c == b'/' || (c == b'?' || c == b'#')

-- the octets before the first boundary
unfoldable pub before_boundary : Bytes → Bytes
before_boundary [] = []
before_boundary (c ∷ text) =
    let rest = before_boundary text in if is_boundary c then [] else c ∷ rest

unfoldable pub same_host : Bytes → Bytes → Bool
same_host [] [] = true
same_host [] (a ∷ allowed) = false
same_host (c ∷ candidate) [] = false
same_host (c ∷ candidate) (a ∷ allowed) = lowered c == a && same_host candidate allowed

unfoldable pub host_of : Bytes → Bytes
host_of url =
    if same (take (length scheme) url) scheme
    then before_boundary (drop (length scheme) url)
    else []

unfoldable pub accepts : Bytes → Bool
accepts url =
    let host = host_of url in
    if length host == 0
    then false
    else if any (λ c. c == b'@' || c == b':') host
    then false
    else any (same_host host) allowed_hosts
