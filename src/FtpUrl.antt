-- ===== src/FtpUrl.antt =====
-- src/ftp_url_parser.cpp: the parts of an FTP URL.
pub mod Find
pub mod RoundTrip
use daobell.Prelude.{
  ℕ, zero, suc, ◌+◌, ◌-◌, ltb, leb, ◌==◌, ◌&&◌, ◌||◌, if◌then◌else◌, Bool, true, false, Bytes,
  codes, [], ◌∷◌, ◌++◌, length, take, drop, Option, none, some, Outcome, ok, fault, ◌>>=◌,
}
use daobell.Files.{starts_with}
use daobell.Pieces.{sub64}

-- The members of an ftp_url_parser after parse.
pub record FtpUrl : Type 0 where
  pub user : Bytes
  pub password : Bytes
  pub domain : Bytes
  pub port : Bytes
  pub path : Bytes
  pub file : Bytes

abbrev pub place_after : Option ℕ → Option ℕ
place_after none = none
place_after (some i) = some (suc i)

-- find_first_of, for the characters of a test; `none` is npos.
unfoldable pub find_first : (ℕ → Bool) → Bytes → Option ℕ
find_first test [] = none
find_first test (c ∷ s) =
    let rest = place_after (find_first test s) in if test c then some 0 else rest

abbrev pub last_of : Bool → Option ℕ → Option ℕ
last_of here none = if here then some 0 else none
last_of here (some i) = some (suc i)

-- find_last_of
unfoldable pub find_last : ℕ → Bytes → Option ℕ
find_last c [] = none
find_last c (d ∷ s) = last_of (d == c) (find_last c s)

-- Whether find gives a place.
unfoldable pub contains : Bytes → Bytes → Bool
unfolding starts_with
contains needle [] = starts_with needle []
contains needle (c ∷ s) = starts_with needle (c ∷ s) || contains needle s

-- substr, which throws for a place behind the end.
abbrev pub substr : Bytes → (pos len : ℕ) → Outcome Bytes
substr s pos len = if leb pos (length s) then ok (take len (drop pos s)) else fault

-- The loop with strstr: whether there is a '/' behind "ftp://" and before place `at`.
unfoldable pub slash_before : ℕ → ℕ → Bytes → Bool
slash_before at i [] = false
slash_before at i (c ∷ s) =
    let rest = slash_before at (suc i) s in
    if c == 0 then false else (c == b'/' && (ltb 6 i && ltb i at)) || rest

-- The place of the '@', unless it belongs to the file.
abbrev pub user_end : Bytes → Option ℕ → Option ℕ
user_end url none = none
user_end url (some at) = if slash_before at 0 url then none else some at

-- path_ and file_, by the last '/'.
abbrev pub path_of : Bytes → Option ℕ → Bytes × Bytes
path_of s none = (s, s)
path_of s (some zero) = (b'/' ∷ [], drop 1 s)
path_of s (some (suc i)) = (take (suc i) s, drop (suc (suc i)) s)

abbrev pub with_path_file : Bytes → Bytes → Bytes → Bytes → Bytes × Bytes → FtpUrl
with_path_file user password domain port (path, file) = record {
  user = user;
  password = password;
  domain = domain;
  port = port;
  path = path;
  file = file;
}

-- The end of parse, by the places of the first '/' and the first ':'. The ':' may stand behind the '/'.
abbrev pub domain_of : (user password s : Bytes) → Option ℕ → Option ℕ → FtpUrl
domain_of user password s none none = with_path_file user password s (codes "21") ([], [])
domain_of user password s none (some k) =
    with_path_file user password (take k s) (drop (suc k) s) ([], [])
domain_of user password s (some pos) none =
    with_path_file user password (take pos s) (codes "21")
      (path_of (drop pos s) (find_last b'/' (drop pos s)))
domain_of user password s (some pos) (some k) =
    with_path_file user password (take k s) (take (sub64 pos (suc k)) (drop (suc k) s))
      (path_of (drop pos s) (find_last b'/' (drop pos s)))

unfoldable pub parse_domain : (user password domain_port : Bytes) → FtpUrl
unfolding find_first find_last
parse_domain user password s =
    domain_of user password s (find_first (λ c. c == b'/') s) (find_first (λ c. c == b':') s)

-- User mode: `colon` is the place of the ':' in user and password; `none` is -1.
abbrev pub user_mode : (url user_password : Bytes) → (at : ℕ) → Option ℕ → Outcome (Option FtpUrl)
user_mode url user_password at none = ok none
user_mode url user_password at (some pos) =
    substr url (suc at) (sub64 (length url) (suc pos)) >>= λ domain_port.
    ok (some (parse_domain (take pos user_password) (drop (suc pos) user_password) domain_port))

-- `at` is where user and password end. The first character of "://" is at `pos1`: it is found, since
-- the URL has "ftp://" in it.
abbrev pub parse_mode : Bytes → Option ℕ → Option ℕ → Outcome (Option FtpUrl)
parse_mode url none at = fault
parse_mode url (some pos1) none =
    substr url (pos1 + 3) (sub64 (length url) (pos1 + 3)) >>= λ domain_port.
    ok (some (parse_domain (codes "anonymous") (codes "anonymous") domain_port))
parse_mode url (some pos1) (some at) =
    substr url (pos1 + 3) (sub64 at (pos1 + 3)) >>= λ user_password.
    user_mode url user_password at (find_first (λ c. c == b':') user_password)

-- ftp_url_parser::parse; `none` is -1.
unfoldable pub parse_ftp_url : Bytes → Outcome (Option FtpUrl)
unfolding contains slash_before parse_domain
parse_ftp_url url =
    let parsed =
      parse_mode url (find_first (λ c. c == b':' || c == b'/') url)
        (user_end url (find_first (λ c. c == b'@') url)) in
    if contains (codes "ftp://") url then parsed else ok none
